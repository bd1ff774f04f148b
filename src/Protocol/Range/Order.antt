-- ===== src/Protocol/Range/Order.antt =====
-- The comparisons of ranges against what their users need: `std::map` wants a strict weak order,
-- a hover wants to know whether a cursor lies in a range.
use p4ls.Prelude.{
  ◌<◌, ◌≤◌, ◌≡◌, ◌↔◌, ◌⊎◌, true, false, equal_iff, text_lt, text_lt_irrefl, text_lt_trans,
  text_lt_total, equal, sym, subst, ◌∙◌, refl, inl, inr, arith,
}
use p4ls.Info.{Position}
use p4ls.Protocol.Range.{Range, Location, range_lt, ◌&ᵇ◌, same_location, location_lt}

-- Ranges are compared by their start positions alone.
abbrev pub Before : Position → Position → Type 0
Before p q = (p.line < q.line) ⊎ ((p.line ≡ q.line) × (p.character < q.character))

pub range_lt_iff : (a b : Range) → ((range_lt a b) ≡ true) ↔ Before a.start b.start
unfolding range_lt
range_lt_iff a b = ground arith

-- `operator<` is a strict weak order: it is irreflexive and transitive, and it separates two ranges
-- in neither direction exactly when they start at the same place, so not to be separated is transitive
-- as well. So a `std::map` keeps one entry for each start position.
pub range_lt_strict_weak :
    (a b c : Range)
    → (range_lt a a ≡ false)
      × (range_lt a b ≡ true → range_lt b c ≡ true → range_lt a c ≡ true)
      × ((range_lt a b ≡ false) × (range_lt b a ≡ false) ↔ (a.start ≡ b.start))
      × ((range_lt a b ≡ false) × (range_lt b a ≡ false)
          → (range_lt b c ≡ false) × (range_lt c b ≡ false)
          → (range_lt a c ≡ false) × (range_lt c a ≡ false))
unfolding range_lt
range_lt_strict_weak a b c = (
  ground arith,
  ground arith,
  (λ h. ground (arith, h.0, h.1), λ e. (ground (arith, e), ground (arith, e))),
  λ h k. (ground (arith, h.0, h.1, k.0, k.1), ground (arith, h.0, h.1, k.0, k.1)),
)

-- The range of a cursor, as the request handlers make it.
abbrev pub cursor : Position → Range
cursor p = record { start = p; finish = p }

-- A range of one line holds a cursor exactly when the cursor is on that line and between its ends,
-- both included.
one_line_holds :
    (r : Range) (p : Position)
    → r.finish.line ≡ r.start.line
    → (r &ᵇ cursor p ≡ true) ↔ (
        (p.line ≡ r.start.line)
        × (r.start.character ≤ p.character)
        × (p.character ≤ r.finish.character))
unfolding ◌&ᵇ◌
one_line_holds r p h = (λ e. (ground arith, ground arith, ground arith), λ e. ground arith)

-- A range of several lines holds no cursor on a line after its first, the last one included, nor one
-- on its first line beyond the column where its last line ends, though all of these lie between its
-- ends, both included.
pub later_lines_missed :
    (r : Range) (p : Position)
    → r.start.line < r.finish.line
    → ((r.start.line < p.line) × (Before p r.finish ⊎ (p ≡ r.finish)))
      ⊎ ((p.line ≡ r.start.line)
          × (r.start.character ≤ p.character)
          × (r.finish.character < p.character))
    → (Before r.start p ⊎ (r.start ≡ p))
      × (Before p r.finish ⊎ (p ≡ r.finish))
      × (r &ᵇ cursor p ≡ false)
unfolding ◌&ᵇ◌
later_lines_missed r p h k = (ground (arith, k), ground (arith, k), ground (arith, k))

pub same_location_iff : (a b : Location) → (same_location a b ≡ true) ↔ (a ≡ b)
unfolding same_location
same_location_iff a b =
    (λ h. ground (arith, equal_iff a.uri b.uri), λ h. ground (arith, equal_iff a.uri b.uri))

location_lt_iff :
    (a b : Location)
    → (location_lt a b ≡ true)
      ↔ ((text_lt a.uri b.uri ≡ true) ⊎ ((a.uri ≡ b.uri) × Before a.range.start b.range.start))
unfolding location_lt
location_lt_iff a b = ground (arith, equal_iff a.uri b.uri)

Before-trans : (p q r : Position) → Before p q → Before q r → Before p r
Before-trans p q r h k = ground arith

location_lt_trans :
    (a b c : Location) → location_lt a b ≡ true → location_lt b c ≡ true → location_lt a c ≡ true
location_lt_trans a b c h k = (location_lt_iff a c).1 (elim ((location_lt_iff a b).0 h) [
  | inl ab ↦ elim ((location_lt_iff b c).0 k) [
    | inl bc ↦ inl (text_lt_trans a.uri b.uri c.uri ab bc)
    | inr (e, bc) ↦ inl (subst (λ u. text_lt a.uri u ≡ true) e ab)
  ]
  | inr (e, ab) ↦ elim ((location_lt_iff b c).0 k) [
    | inl bc ↦ inl (subst (λ u. text_lt u c.uri ≡ true) (sym e) bc)
    | inr (f, bc) ↦ inr (e ∙ f, Before-trans a.range.start b.range.start c.range.start ab bc)
  ]
])

not_before :
    (a b : Location) → a.uri ≡ b.uri → a.range.start ≡ b.range.start → location_lt a b ≡ false
unfolding location_lt
not_before a b e s =
    let same : text_lt a.uri b.uri ≡ false =
      subst (λ u. text_lt a.uri u ≡ false) e (text_lt_irrefl a.uri) in
    ground (arith, s)

together :
    (a b : Location)
    → location_lt a b ≡ false
    → location_lt b a ≡ false
    → (a.uri ≡ b.uri) × (a.range.start ≡ b.range.start)
unfolding location_lt
together a b h k =
    let e : a.uri ≡ b.uri = text_lt_total a.uri b.uri (ground (arith, h)) (ground (arith, k)) in
    let one : equal a.uri b.uri ≡ true = (equal_iff a.uri b.uri).1 e in
    let other : equal b.uri a.uri ≡ true = (equal_iff b.uri a.uri).1 (sym e) in
    (e, ground (arith, h, k))

-- `operator<` of locations is a strict weak order, and it does not separate two locations exactly
-- when they have one text and start at the same place, though `operator==` separates them when their
-- ends differ.
location_lt_strict_weak :
    (a b c : Location)
    → (location_lt a a ≡ false)
      × (location_lt a b ≡ true → location_lt b c ≡ true → location_lt a c ≡ true)
      × ((location_lt a b ≡ false) × (location_lt b a ≡ false)
          ↔ ((a.uri ≡ b.uri) × (a.range.start ≡ b.range.start)))
location_lt_strict_weak a b c = (
  not_before a a refl refl,
  location_lt_trans a b c,
  (λ h. together a b h.0 h.1, λ e. (not_before a b e.0 e.1, not_before b a (sym e.0) (sym e.1))),
)
