-- ===== src/Handoff/InStep.antt =====
-- What the memory of a run holds of feedback and of earlier rounds also stands in the run directory.
use oh_my_graph.Base.{
  String, ◌≡◌, ◌≢◌, refl, sym, ap, subst, ◌∙◌, ◌⊎◌, inl, inr, true, Option, none, some, arith,
  Bool-cases,
}
use oh_my_graph.Base.Bytes.{Bytes, bytes, same_bytes, same_bytes_iff}
use oh_my_graph.Base.Table.{Table, get, put}
use oh_my_graph.Disk.{FileSystem, IsLawful, held}
use oh_my_graph.Names.{node_id_matches}
use oh_my_graph.Handoff.{Handoff}
use oh_my_graph.Handoff.Files.{Write}
use oh_my_graph.Handoff.Paths.{Place, place_path, place_path_distinct}
use oh_my_graph.Handoff.Writes.{IsAtomic}

-- What the state holds of a node for a later process.
abbrev pub remembered : Place → Handoff → Bytes → Option Bytes
remembered Place.artifact h id = none
remembered Place.feedback h id = get h.feedback id
remembered Place.previous h id = get h.previous id
remembered Place.failed h id = none

put_news :
    (table : Table Bytes) (key payload id c : Bytes)
    → get (put table key payload) id ≡ some c
    → ((id ≡ key) × (c ≡ payload)) ⊎ ((id ≢ key) × (get table id ≡ some c))
put_news table key payload id c h = ground (arith, same_bytes_iff key id)

-- Where a remembered text can come from, after one table of the state was written.
unfoldable pub News : Place → Handoff → Handoff → Bytes → Bytes → Type 0
News q h h' key payload =
    (p : Place) (id : Bytes) (c : Bytes)
    → remembered p h' id ≡ some c
    → ((p ≡ q) × ((id ≡ key) × (c ≡ payload)))
      ⊎ ((¬ ((p ≡ q) × (id ≡ key))) × (remembered p h id ≡ some c))

pub feedback-News :
    (h : Handoff) (key payload : Bytes)
    → News Place.feedback h (record h { feedback = put h.feedback key payload }) key payload
unfolding News
feedback-News h key payload Place.artifact id c e = absurd (cc e)
feedback-News h key payload Place.failed id c e = absurd (cc e)
feedback-News h key payload Place.previous id c e = inr (λ (same, _). cc same, e)
feedback-News h key payload Place.feedback id c e = elim (put_news h.feedback key payload id c e) [
  | inl here ↦ inl (refl, here)
  | inr (ne, old) ↦ inr (λ (_, same). ne same, old)
]

pub previous-News :
    (h : Handoff) (key payload : Bytes)
    → News Place.previous h (record h { previous = put h.previous key payload }) key payload
unfolding News
previous-News h key payload Place.artifact id c e = absurd (cc e)
previous-News h key payload Place.failed id c e = absurd (cc e)
previous-News h key payload Place.feedback id c e = inr (λ (same, _). cc same, e)
previous-News h key payload Place.previous id c e = elim (put_news h.previous key payload id c e) [
  | inl here ↦ inl (refl, here)
  | inr (ne, old) ↦ inr (λ (_, same). ne same, old)
]

module _ (F : FileSystem) where
  -- Each payload and each reply in memory is also in its file.
  pub record InStep (h : Handoff) (d : F.Disk) : Type 0 where
    pub stored :
        (p : Place) (id : String) (c : Bytes)
        → node_id_matches id ≡ true
        → remembered p h (bytes id) ≡ some c
        → held F d (place_path p h.run_dir (bytes id)) ≡ some c

  module _ (lawful : IsLawful F) where
    -- A write to another file of the run directory.
    pub written :
        (h : Handoff) (d : F.Disk)
        → InStep h d
        → (q : Place) (a : String) → node_id_matches a ≡ true
        → (payload : Bytes) (result : Write F)
        → IsAtomic F d (place_path q h.run_dir (bytes a)) payload result
        → (p : Place) (id : String) (c : Bytes) → node_id_matches id ≡ true
        → ¬ ((p ≡ q) × (bytes id ≡ bytes a))
        → remembered p h (bytes id) ≡ some c
        → held F result.1 (place_path p h.run_dir (bytes id)) ≡ some c
    written h d step q a ha payload result atomic p id c hid ne e =
        atomic.others _ c (λ same. ne (place_path_distinct p q h.run_dir id a hid ha same))
          (step.stored p id c hid e)

    -- A write that reported an error left all files as the memory has them.
    pub failed_write :
        (h : Handoff) (d : F.Disk)
        → InStep h d
        → (q : Place) (a : String) → node_id_matches a ≡ true
        → (payload : Bytes) (result : Write F)
        → IsAtomic F d (place_path q h.run_dir (bytes a)) payload result
        → result.0 ≢ none
        → InStep h result.1
    failed_write h d step q a ha payload result atomic err = record {
      stored = λ p id c hid e.
          let path = place_path p h.run_dir (bytes id) in
          let there = place_path q h.run_dir (bytes a) in
          elim (Bool-cases (same_bytes path there)) [
            | inl same ↦
                let eq = (same_bytes_iff path there).0 same in
                subst (λ x. held F result.1 x ≡ some c) (sym eq)
                  (atomic.unchanged err
                    ∙ subst (λ x. held F d x ≡ some c) eq (step.stored p id c hid e))
            | inr other ↦
                atomic.others path c (λ eq. cc (sym other ∙ (same_bytes_iff path there).1 eq))
                  (step.stored p id c hid e)
          ];
    }

    -- A write that succeeded, to a file whose text the memory takes over.
    pub good_write :
        (h h' : Handoff) (d : F.Disk)
        → InStep h d
        → (q : Place) (a : String) → node_id_matches a ≡ true
        → (payload : Bytes) (result : Write F)
        → IsAtomic F d (place_path q h.run_dir (bytes a)) payload result
        → result.0 ≡ none
        → h'.run_dir ≡ h.run_dir
        → News q h h' (bytes a) payload
        → InStep h' result.1
    unfolding News
    good_write h h' d step q a ha payload result atomic ok dir news = record {
      stored = λ p id c hid e. elim (news p (bytes id) c e) [
        | inl (same, (key, text)) ↦
            subst (λ x. held F result.1 (place_path p x (bytes id)) ≡ some c) (sym dir)
              (subst (λ x. held F result.1 (place_path x h.run_dir (bytes id)) ≡ some c) (sym same)
                (subst (λ x. held F result.1 (place_path q h.run_dir x) ≡ some c) (sym key)
                  (atomic.stored ok ∙ ap some (sym text))))
        | inr (ne, old) ↦
            subst (λ x. held F result.1 (place_path p x (bytes id)) ≡ some c) (sym dir)
              (written h d step q a ha payload result atomic p id c hid ne old)
      ];
    }
