-- ===== src/Fields.antt =====
-- tlsn/crates/core/src/attestation.rs: the identifiers of the fields of an attestation.
use ethdam_rope.Prelude.{ℕ, ◌+◌, ◌%◌, ◌^◌, Eq, ℕ_discrete}

pub record FieldId : Type 0 where
  pub id : ℕ

pub record Field (T : Type 0) : Type 0 where
  pub id : FieldId
  pub content : T

field_id_dec : Discrete FieldId
field_id_dec = hlevel ℕ_discrete

instance unfoldable pub field_id_eq : Eq FieldId
unfolding field_id_dec
field_id_eq = record { dec = field_id_dec }

abbrev pub first_field_id : FieldId
first_field_id = record { id = 0 }

-- `FieldId::next`: the field, and the identifier that follows. It is a `u32`, which wraps.
abbrev pub next_field : {T : Type 0} → FieldId → T → Field T × FieldId
next_field id content =
    (record { id = id; content = content }, record { id = (id.id + 1) % 2 ^ 32 })
