-- ===== src/Protocol/Capabilities/EditingConforming.antt =====
-- The shape of value under which each of these decoders returns: every member that is there and
-- not null has the type that the protocol gives it.
use p4ls.Prelude.{refl, codes}
use p4ls.Json.{Json}
use p4ls.Json.Decode.{Returns, bind-Returns, bind-Returns_inv, Member, bool}
use p4ls.Protocol.Capabilities.Lists.{completion_item_kinds, markup_kinds}
use p4ls.Protocol.Capabilities.Conforming
use p4ls.Protocol.Capabilities.Conforming.{
  IsBool, bool-Returns, bool-Conforms, IsStringArray, markup_kinds-Returns, markup_kinds-Conforms,
  IsIntArray, completion_item_kinds-Returns, completion_item_kinds-Conforms,
}
use p4ls.Protocol.Capabilities.Editing.{
  decode_synchronization, decode_completion_item, decode_completion_item_kinds, decode_completion,
}

module _ (j : Json) where
  open j use {Value}

  pub record SynchronizationConforms (v : Value) : Type 0 where
    pub dynamic_registration : Member j (IsBool j) v (codes "dynamicRegistration")
    pub will_save : Member j (IsBool j) v (codes "willSave")
    pub will_save_wait_until : Member j (IsBool j) v (codes "willSaveWaitUntil")
    pub did_save : Member j (IsBool j) v (codes "didSave")

  pub decode_synchronization-Returns :
      (v : Value) → SynchronizationConforms v → Returns (decode_synchronization j v)
  unfolding decode_synchronization
  decode_synchronization-Returns v c =
      let (dynamic_registration, e0) =
        Conforming.optional-Returns j (bool j) (bool-Returns j) v _ c.dynamic_registration in
      let (will_save, e1) =
        Conforming.optional-Returns j (bool j) (bool-Returns j) v _ c.will_save in
      let (will_save_wait_until, e2) =
        Conforming.optional-Returns j (bool j) (bool-Returns j) v _ c.will_save_wait_until in
      let (did_save, e3) = Conforming.optional-Returns j (bool j) (bool-Returns j) v _ c.did_save in
      (
        record {
          dynamic_registration = dynamic_registration;
          will_save = will_save;
          will_save_wait_until = will_save_wait_until;
          did_save = did_save;
        },
        rw (e0, e1, e2, e3) refl,
      )

  pub decode_synchronization-Conforms :
      (v : Value) → Returns (decode_synchronization j v) → SynchronizationConforms v
  unfolding decode_synchronization
  decode_synchronization-Conforms v r =
      let (a0, e0, r0) = bind-Returns_inv r in
      let (a1, e1, r1) = bind-Returns_inv r0 in
      let (a2, e2, r2) = bind-Returns_inv r1 in
      let (a3, e3, r3) = bind-Returns_inv r2 in
      record {
        dynamic_registration = Conforming.optional-Member j (bool j) (bool-Conforms j) v _ (a0, e0);
        will_save = Conforming.optional-Member j (bool j) (bool-Conforms j) v _ (a1, e1);
        will_save_wait_until = Conforming.optional-Member j (bool j) (bool-Conforms j) v _ (a2, e2);
        did_save = Conforming.optional-Member j (bool j) (bool-Conforms j) v _ (a3, e3);
      }

  pub record CompletionItemConforms (v : Value) : Type 0 where
    pub snippet_support : Member j (IsBool j) v (codes "snippetSupport")
    pub commit_characters_support : Member j (IsBool j) v (codes "commitCharactersSupport")
    pub documentation_format : Member j (IsStringArray j) v (codes "documentationFormat")

  pub decode_completion_item-Returns :
      (v : Value) → CompletionItemConforms v → Returns (decode_completion_item j v)
  unfolding decode_completion_item
  decode_completion_item-Returns v c =
      let (snippet_support, e0) =
        Conforming.optional-Returns j (bool j) (bool-Returns j) v _ c.snippet_support in
      let (commit_characters_support, e1) =
        Conforming.optional-Returns j (bool j) (bool-Returns j) v _ c.commit_characters_support in
      let (documentation_format, e2) =
        Conforming.optional-Returns j (markup_kinds j) (markup_kinds-Returns j) v _
          c.documentation_format in
      (
        record {
          snippet_support = snippet_support;
          commit_characters_support = commit_characters_support;
          documentation_format = documentation_format;
        },
        rw (e0, e1, e2) refl,
      )

  pub decode_completion_item-Conforms :
      (v : Value) → Returns (decode_completion_item j v) → CompletionItemConforms v
  unfolding decode_completion_item
  decode_completion_item-Conforms v r =
      let (a0, e0, r0) = bind-Returns_inv r in
      let (a1, e1, r1) = bind-Returns_inv r0 in
      let (a2, e2, r2) = bind-Returns_inv r1 in
      record {
        snippet_support = Conforming.optional-Member j (bool j) (bool-Conforms j) v _ (a0, e0);
        commit_characters_support =
            Conforming.optional-Member j (bool j) (bool-Conforms j) v _ (a1, e1);
        documentation_format =
            Conforming.optional-Member j (markup_kinds j) (markup_kinds-Conforms j) v _ (a2, e2);
      }

  pub record CompletionItemKindsConforms (v : Value) : Type 0 where
    pub value_set : Member j (IsIntArray j) v (codes "valueSet")

  pub decode_completion_item_kinds-Returns :
      (v : Value) → CompletionItemKindsConforms v → Returns (decode_completion_item_kinds j v)
  unfolding decode_completion_item_kinds
  decode_completion_item_kinds-Returns v c =
      bind-Returns
        (Conforming.optional-Returns j (completion_item_kinds j) (completion_item_kinds-Returns j) v
          _ c.value_set)
        λ value_set. (record { value_set = value_set }, refl)

  pub decode_completion_item_kinds-Conforms :
      (v : Value) → Returns (decode_completion_item_kinds j v) → CompletionItemKindsConforms v
  unfolding decode_completion_item_kinds
  decode_completion_item_kinds-Conforms v r =
      let (a0, e0, r0) = bind-Returns_inv r in
      record {
        value_set =
            Conforming.optional-Member j (completion_item_kinds j)
              (completion_item_kinds-Conforms j) v _ (a0, e0);
      }

  pub record CompletionConforms (v : Value) : Type 0 where
    pub dynamic_registration : Member j (IsBool j) v (codes "dynamicRegistration")
    pub context_support : Member j (IsBool j) v (codes "contextSupport")
    pub completion_item : Member j CompletionItemConforms v (codes "completionItem")
    pub completion_item_kind : Member j CompletionItemKindsConforms v (codes "completionItemKind")

  pub decode_completion-Returns :
      (v : Value) → CompletionConforms v → Returns (decode_completion j v)
  unfolding decode_completion
  decode_completion-Returns v c =
      let (dynamic_registration, e0) =
        Conforming.optional-Returns j (bool j) (bool-Returns j) v _ c.dynamic_registration in
      let (context_support, e1) =
        Conforming.optional-Returns j (bool j) (bool-Returns j) v _ c.context_support in
      let (completion_item, e2) =
        Conforming.optional-Returns j (decode_completion_item j) (decode_completion_item-Returns) v
          _ c.completion_item in
      let (completion_item_kind, e3) =
        Conforming.optional-Returns j (decode_completion_item_kinds j)
          (decode_completion_item_kinds-Returns) v _ c.completion_item_kind in
      (
        record {
          dynamic_registration = dynamic_registration;
          context_support = context_support;
          completion_item = completion_item;
          completion_item_kind = completion_item_kind;
        },
        rw (e0, e1, e2, e3) refl,
      )

  pub decode_completion-Conforms :
      (v : Value) → Returns (decode_completion j v) → CompletionConforms v
  unfolding decode_completion
  decode_completion-Conforms v r =
      let (a0, e0, r0) = bind-Returns_inv r in
      let (a1, e1, r1) = bind-Returns_inv r0 in
      let (a2, e2, r2) = bind-Returns_inv r1 in
      let (a3, e3, r3) = bind-Returns_inv r2 in
      record {
        dynamic_registration = Conforming.optional-Member j (bool j) (bool-Conforms j) v _ (a0, e0);
        context_support = Conforming.optional-Member j (bool j) (bool-Conforms j) v _ (a1, e1);
        completion_item =
            Conforming.optional-Member j (decode_completion_item j)
              (decode_completion_item-Conforms) v _ (a2, e2);
        completion_item_kind =
            Conforming.optional-Member j (decode_completion_item_kinds j)
              (decode_completion_item_kinds-Conforms) v _ (a3, e3);
      }
