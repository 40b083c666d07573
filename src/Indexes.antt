-- ===== src/Indexes.antt =====
-- tlsn/crates/core/src/index.rs: items by field identifier and by place in the transcript.
pub mod Lookup
use ethdam_rope.Prelude.{
  ℕ, suc, ◌+◌, ◌≡◌, List, [], ◌∷◌, get_elem?, Option, none, some, MayPanic, ◌>>=◌, Eq, HashMap,
  put_entry, get_entry,
}
use ethdam_rope.RangeSets.{RangeSet}
use ethdam_rope.Subsequence.{Direction, Idx, idx_empty, idx_union}
use ethdam_rope.Fields.{FieldId, field_id_eq}

-- What tells where an item belongs.
pub record Place (R : Type 0) : Type 0 where
  pub id : FieldId
  pub direction : Direction
  pub idx : Idx R

pub record Index (T R : Type 0) : Type 0 where
  pub items : List T
  pub field_ids : HashMap FieldId ℕ
  pub transcript_idxs : HashMap (Direction × Idx R) ℕ
  pub sent : Idx R
  pub recv : Idx R

-- `.map(|i| &self.items[*i])`
abbrev pub item_at : {T : Type 0} → List T → Option ℕ → MayPanic (Option T)
item_at items none = some none
item_at items (some i) = do item ← get_elem? items i; some (some item)

module _ {T R : Type 0} ⦃rs : RangeSet R⦄ ⦃er : Eq (Direction × Idx R)⦄ where
  abbrev pub default_index : Index T R
  default_index = record {
    items = [];
    field_ids = [];
    transcript_idxs = [];
    sent = idx_empty;
    recv = idx_empty;
  }

  abbrev pub index_unions : Direction → Idx R → Index T R → Index T R
  index_unions Direction.sent idx index = record index { sent = idx_union index.sent idx }
  index_unions Direction.received idx index = record index { recv = idx_union index.recv idx }

  -- The loop over the items, from position `i` on.
  unfoldable pub index_items : (T → Place R) → ℕ → List T → Index T R → Index T R
  unfolding put_entry
  index_items f i [] index = index
  index_items f i (item ∷ items) index =
      let place = f item in
      index_items f (suc i) items (
        index_unions place.direction place.idx (record index {
          field_ids = put_entry place.id i index.field_ids;
          transcript_idxs = put_entry (place.direction, place.idx) i index.transcript_idxs;
        }))

  unfoldable pub new_index : List T → (T → Place R) → Index T R
  unfolding index_items
  new_index items f = record (index_items f 0 items default_index) { items = items }

  unfoldable pub get_by_field_id : Index T R → FieldId → MayPanic (Option T)
  unfolding get_entry
  get_by_field_id index id = item_at index.items (get_entry id index.field_ids)

  unfoldable pub get_by_transcript_idx : Index T R → Direction × Idx R → MayPanic (Option T)
  unfolding get_entry
  get_by_transcript_idx index dir_idx =
      item_at index.items (get_entry dir_idx index.transcript_idxs)

abbrev pub index_idx : {T R : Type 0} → Index T R → Direction → Idx R
index_idx index Direction.sent = index.sent
index_idx index Direction.received = index.recv
