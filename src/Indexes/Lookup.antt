-- ===== src/Indexes/Lookup.antt =====
-- What an index finds, against a search through its items.
use ethdam_rope.Prelude.{
  ℕ, suc, ◌+◌, ◌≡◌, refl, ap, sym, ◌∙◌, Bool, false, ◌&&◌, ◌||◌, if◌then◌else◌, List, [], ◌∷◌,
  get_elem?, Option, none, some, Eq, is_equal, HashMap, get_entry, get_entry-put_entry, arith,
  Bool-cases, inl, inr, Option-cases,
}
use ethdam_rope.RangeSets.{RangeSet}
use ethdam_rope.Subsequence.{Direction, Idx}
use ethdam_rope.Transcript.View.{idx_mem}
use ethdam_rope.Transcript.Added.{same_direction}
use ethdam_rope.Fields.{FieldId, field_id_eq}
use ethdam_rope.Indexes.{
  Place, Index, default_index, index_items, new_index, get_by_field_id, get_by_transcript_idx,
  index_idx, index_unions, item_at,
}

-- The last item that passes.
abbrev pub find_last : {T : Type 0} → (T → Bool) → List T → Option T
find_last passes [] = none
find_last passes (item ∷ items) = elim (find_last passes items) [
  | none ↦ if passes item then some item else none
  | some later ↦ some later
]

-- Its position, counted from `i`, or else `before`.
abbrev last_position : {T : Type 0} → (T → Bool) → ℕ → List T → Option ℕ → Option ℕ
last_position passes i [] before = before
last_position passes i (item ∷ items) before =
    last_position passes (suc i) items (if passes item then some i else before)

-- What is found, or else the item at the position `before`.
abbrev found_or : {T : Type 0} → List T → Option ℕ → Option T → Option (Option T)
found_or all before none = item_at all before
found_or all before (some found) = some (some found)

found_or-none :
    {T : Type 0} (all : List T) (found : Option T) → found_or all none found ≡ some found
found_or-none all none = refl
found_or-none all (some found) = refl

module _ {T : Type 0} (passes : T → Bool) where
  item_at-last_position :
      (all : List T) (n : ℕ) (items : List T) (before : Option ℕ)
      → ((k : ℕ) → get_elem? items k ≡ get_elem? all (n + k))
      → item_at all (last_position passes n items before)
        ≡ found_or all before (find_last passes items)
  item_at-last_position all n [] before h = refl
  item_at-last_position all n (item ∷ items) before h =
      let rest =
        item_at-last_position all (suc n) items (if passes item then some n else before)
          (λ k. h (suc k) ∙ ap (get_elem? all) (omega arith)) in
      let here : some item ≡ get_elem? all n = h 0 ∙ ap (get_elem? all) (omega arith) in
      elim (Option-cases (find_last passes items)) [
        | inl none_later ↦ elim (Bool-cases (passes item)) [
          | inl here_passes ↦ rest ∙ rw (none_later, here_passes, sym here) refl
          | inr here_fails ↦ rest ∙ rw (none_later, here_fails) refl
        ]
        | inr (later, found) ↦ rest ∙ rw found refl
      ]

  item_at-find_last :
      (items : List T)
      → item_at items (last_position passes 0 items none) ≡ some (find_last passes items)
  item_at-find_last items =
      item_at-last_position items 0 items none (λ k. ap (get_elem? items) (omega arith))
      ∙ found_or-none items (find_last passes items)

or_assoc : (a b c : Bool) → ((a || b) || c) ≡ (a || (b || c))
or_assoc a b c = ground arith

module _ {T R : Type 0} ⦃rs : RangeSet R⦄ ⦃er : Eq (Direction × Idx R)⦄ (f : T → Place R) where
  -- Some item is at the place.
  abbrev pub covered : List T → Direction → ℕ → Bool
  covered [] d i = false
  covered (item ∷ items) d i =
      (same_direction (f item).direction d && idx_mem (f item).idx i) || covered items d i

  index_unions-maps :
      (d : Direction) (idx : Idx R) (index : Index T R)
      → ((index_unions d idx index).field_ids ≡ index.field_ids)
        × ((index_unions d idx index).transcript_idxs ≡ index.transcript_idxs)
  index_unions-maps Direction.sent idx index = (refl, refl)
  index_unions-maps Direction.received idx index = (refl, refl)

  index_unions-idx :
      (a : Direction) (idx : Idx R) (ids : HashMap FieldId ℕ)
      (places : HashMap (Direction × Idx R) ℕ) (index : Index T R) (d : Direction) (i : ℕ)
      → idx_mem
          (index_idx
            (index_unions a idx (record index { field_ids = ids; transcript_idxs = places }))
            d)
          i
        ≡ (idx_mem (index_idx index d) i || (same_direction a d && idx_mem idx i))
  index_unions-idx Direction.sent idx ids places index Direction.sent i =
      rs.mem-union index.sent.ranges idx.ranges i
  index_unions-idx Direction.sent idx ids places index Direction.received i = ground arith
  index_unions-idx Direction.received idx ids places index Direction.sent i = ground arith
  index_unions-idx Direction.received idx ids places index Direction.received i =
      rs.mem-union index.recv.ranges idx.ranges i

  index_items-idx :
      (n : ℕ) (items : List T) (index : Index T R) (d : Direction) (i : ℕ)
      → idx_mem (index_idx (index_items f n items index) d) i
        ≡ (idx_mem (index_idx index d) i || covered items d i)
  unfolding index_items
  index_items-idx n [] index d i = ground arith
  index_items-idx n (item ∷ items) index d i =
      index_items-idx (suc n) items _ d i
      ∙ ap (λ b. b || covered items d i)
          (index_unions-idx (f item).direction (f item).idx _ _ index d i)
      ∙ or_assoc (idx_mem (index_idx index d) i) _ (covered items d i)

  index_items-field_ids :
      (id : FieldId) (n : ℕ) (items : List T) (index : Index T R)
      → get_entry id (index_items f n items index).field_ids
        ≡ last_position (λ item. is_equal id (f item).id) n items (get_entry id index.field_ids)
  unfolding index_items
  index_items-field_ids id n [] index = refl
  index_items-field_ids id n (item ∷ items) index =
      index_items-field_ids id (suc n) items _
      ∙ ap (last_position (λ item. is_equal id (f item).id) (suc n) items) (
          ap (get_entry id) (index_unions-maps (f item).direction (f item).idx _).0
          ∙ get_entry-put_entry id (f item).id n index.field_ids)

  index_items-transcript_idxs :
      (place : Direction × Idx R) (n : ℕ) (items : List T) (index : Index T R)
      → get_entry place (index_items f n items index).transcript_idxs
        ≡ last_position
            (λ item. is_equal place ((f item).direction, (f item).idx))
            n
            items
            (get_entry place index.transcript_idxs)
  unfolding index_items
  index_items-transcript_idxs place n [] index = refl
  index_items-transcript_idxs place n (item ∷ items) index =
      index_items-transcript_idxs place (suc n) items _
      ∙ ap (last_position (λ item. is_equal place ((f item).direction, (f item).idx)) (suc n) items)
          (ap (get_entry place) (index_unions-maps (f item).direction (f item).idx _).1
            ∙ get_entry-put_entry place ((f item).direction, (f item).idx) n index.transcript_idxs)

  -- An index finds by a field identifier the last item that has it, and by a place in the transcript
  -- the last item at that place, or nothing if there is none, without a panic; and in each direction
  -- its index is the union of those of the items.
  pub new_index-find_last :
      (items : List T)
      → ((id : FieldId)
          → get_by_field_id (new_index items f) id
            ≡ some (find_last (λ item. is_equal id (f item).id) items))
        × ((place : Direction × Idx R)
            → get_by_transcript_idx (new_index items f) place
              ≡ some (find_last (λ item. is_equal place ((f item).direction, (f item).idx)) items))
        × ((d : Direction) (i : ℕ)
            → idx_mem (index_idx (new_index items f) d) i ≡ covered items d i)
  unfolding new_index get_by_field_id get_by_transcript_idx get_entry
  new_index-find_last items = (
    λ id.
        rw (index_items-field_ids id 0 items default_index)
          (item_at-find_last (λ item. is_equal id (f item).id) items),
    λ place.
        rw (index_items-transcript_idxs place 0 items default_index)
          (item_at-find_last (λ item. is_equal place ((f item).direction, (f item).idx)) items),
    elim [
      | Direction.sent ↦
          λ i. index_items-idx 0 items default_index Direction.sent i ∙ rw rs.empty_ranges refl
      | Direction.received ↦
          λ i. index_items-idx 0 items default_index Direction.received i ∙ rw rs.empty_ranges refl
    ],
  )
