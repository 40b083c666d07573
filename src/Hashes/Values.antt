-- ===== src/Hashes/Values.antt =====
-- Round trips between byte strings and hash values.
use ethdam_rope.Prelude.{
  ℕ, ◌≤◌, ◌<◌, ◌≡◌, ap, ◌∙◌, List, length, get_elem?, none, some, ok, err, arith, slice,
  copy_from_slice, copy_from_slice-Splice, slice_lem, list_ext, length-replicate, get_elem?_beyond,
}
use ethdam_rope.Hashes.{
  Hash, hash_too_long, max_len, new_hash, hash_try_from, hash_into_vec, zero_value,
}

-- What `bytes[..n].copy_from_slice(value)` writes is read back by `bytes[..n]`.
slice-copy_from_slice :
    (dest value : List ℕ)
    → length value ≤ length dest
    → (bytes : List ℕ) × (copy_from_slice dest 0 (length value) value ≡ some bytes)
      × (length bytes ≡ length dest)
      × (slice bytes 0 (length value) ≡ some value)
slice-copy_from_slice dest value h =
    let (bytes, copied, s) =
      copy_from_slice-Splice dest 0 (length value) value (get_elem? value) (omega arith) h
        (omega arith) (λ i j e l. ap (get_elem? value) (omega arith)) in
    let (part, cut, len, elem) =
      slice_lem bytes 0 (length value) (omega arith) (omega (arith, s.size)) in
    let at : (i : ℕ) → get_elem? part i ≡ get_elem? value i = λ i. ground (
      arith,
      elem i i (omega arith),
      s.elem i,
      get_elem?_beyond part i,
      get_elem?_beyond value i,
    ) in
    (bytes, copied, s.size, cut ∙ ap some (list_ext part value at))

length-zero_value : length zero_value ≡ max_len
unfolding zero_value
length-zero_value = length-replicate {A = ℕ} max_len 0

-- A byte string of at most 64 bytes makes a hash, with and without the check for an error, and the
-- hash gives the bytes back; a longer one is an error, and a panic where there is no check.
pub hash_into_vec-hash_try_from :
    (value : List ℕ)
    → (length value ≤ max_len
        → (h : Hash) × (hash_try_from value ≡ some (ok h))
          × (new_hash value ≡ some h)
          × (length h.value ≡ max_len)
          × (hash_into_vec h ≡ some value))
      × (max_len < length value
          → (hash_try_from value ≡ some (err hash_too_long)) × (new_hash value ≡ none))
unfolding hash_try_from new_hash hash_into_vec
hash_into_vec-hash_try_from value = (
  λ h.
      let (bytes, copied, size, back) =
        slice-copy_from_slice zero_value value (omega (arith, length-zero_value)) in
      (
        record { value = bytes; len = length value },
        rw copied (ground arith),
        rw copied (ground arith),
        size ∙ length-zero_value,
        back,
      ),
  λ h. (ground arith, ground arith),
)
