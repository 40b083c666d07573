-- ===== src/Tests/Machine.antt =====
-- A virtual machine that answers with fixed keystreams.
use ethdam_rope.Prelude.{ℕ, ◌+◌, none, some, List, [], replicate, ok}
use ethdam_rope.MpcTls.Engine.{Engine}
use ethdam_rope.MpcTls.Xor.{xor_with}

-- A reference is the bytes that it refers to, and the state counts the steps.
instance abbrev pub fixed_engine : Engine ℕ (List ℕ)
fixed_engine = record {
  alloc = λ side records len v. (ok tt, v + 1);
  preprocess = λ v. (ok tt, v + 1);
  setup = λ v. (ok tt, v + 1);
  set_key = λ side key iv v. v + 1;
  apply_keystream = λ side nonce len v. (ok (replicate len 3, replicate len 5), v + 1);
  take_keystream = λ side nonce len v. (ok (replicate len 3), v + 1);
  assign = λ h bytes v. (ok tt, v + 1);
  commit = λ h v. (ok tt, v + 1);
  decode = λ h v. (ok h, v + 1);
  try_recv = λ h v. (ok (some h), v + 1);
  mask_private = λ h pad v. (ok (xor_with h pad), v + 1);
  mask_blind = λ h v. (ok h, v + 1);
  compute_tags = λ futures datas v. (ok [], v + 1);
  verify_tags = λ datas ciphertexts tags v. (ok [], v + 1);
  run_join = λ tags check v. (ok none, v + 1);
  run_verify = λ check v. (ok tt, v + 1);
  execute_all = λ v. (ok tt, v + 1);
  flush = λ v. (ok tt, v + 1);
  ctr_keystream = λ key block position len. replicate len 3;
  random = λ len v. (ok (replicate len 9), v + 1);
}
