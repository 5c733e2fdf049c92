-- ===== src/Raft/Entry/RoundTrip.antt =====
-- Decoding what Raft/RaftEntryCodec.cpp encoded.
use mathlib.Core.List.{append_assoc, append-nil}
use stoneleaf_db.Common.{
  ℕ, ◌*◌, ◌^◌, ◌≤◌, ◌<◌, true, Option, none, some, List, [], ◌∷◌, ◌++◌, length, ltb, ◌≡◌, refl,
  arith, length-append, Bool-cases, inl, inr, ◌-◌,
}
use stoneleaf_db.Encoding.Stream.{◌>>=◌, out_u32, out_u64, in_u8, write_key, write_value}
use stoneleaf_db.Encoding.Stream.RoundTrip.{
  in_u32-out_u32, in_u64-out_u64, read_key-write_key, read_value-write_value, length-write_key,
}
use stoneleaf_db.Raft.Entry.{
  MutationType, put, delete, Mutation, put_mutation, delete_mutation, MutationOp, MutationEntry,
  mutation_code, encode_operations, encode, is_valid_header, decode_operations, decode,
  read_mutation, write_mutation,
}

-- A chain that ends well has ended well at its first link.
pub some_first {ℓ κ} :
    {A : Type ℓ} {B : Type κ} (o : Option A) (f : A → Option B) {b : B}
    → (o >>= f) ≡ some b
    → (a : A) × (o ≡ some a) × (f a ≡ some b)
some_first none f h = cc
some_first (some a) f h = (a, refl, h)

mutation_back :
    (type : MutationType) (operation : Mutation) (rest : List ℕ) {bytes : List ℕ}
    → write_mutation type operation ≡ some bytes
    → (read_mutation (mutation_code type) (bytes ++ rest)
        ≡ some (record { type = type; operation = operation }, rest))
      × (5 ≤ length bytes)
mutation_back put (put_mutation key value) rest {bytes} h =
    let (k, hk, h1) = some_first (write_key key) _ h in
    let (v, hv, h2) = some_first (write_value value) _ h1 in
    let is : k ++ v ≡ bytes = cc in
    rw (← is) (
      rw (
        append_assoc k v rest,
        read_key-write_key key (v ++ rest) hk,
        read_value-write_value value rest hv,
      ),
      omega (arith, length-append k v, length-write_key key hk),
    )
mutation_back put (delete_mutation key) rest h = cc
mutation_back delete (put_mutation key value) rest h = cc
mutation_back delete (delete_mutation key) rest h =
    (rw (read_key-write_key key rest h), length-write_key key h)

operations_back :
    (ops : List MutationOp) (rest : List ℕ) {bytes : List ℕ}
    → encode_operations ops ≡ some bytes
    → (decode_operations (length ops) (bytes ++ rest) ≡ some (ops, rest))
      × (length ops * 6 ≤ length bytes)
unfolding encode_operations decode_operations in_u8
operations_back [] rest {bytes} h =
    let is : ◌≡◌ {A = List ℕ} [] bytes = cc in rw (← is) (refl, omega arith)
operations_back (op ∷ ops) rest {bytes} h =
    let (first, hf, h1) = some_first (write_mutation op.type op.operation) _ h in
    let (others, ho, h2) = some_first (encode_operations ops) _ h1 in
    let is : mutation_code op.type ∷ first ++ others ≡ bytes = cc in
    let (read, long) = mutation_back op.type op.operation (others ++ rest) hf in
    let (ih, many) = operations_back ops rest ho in
    rw (← is) (
      rw (append_assoc first others rest, read, ih),
      omega (arith, long, many, length-append first others),
    )

pub accepted :
    (entry : MutationEntry) {bytes : List ℕ}
    → encode entry ≡ some bytes
    → (is_valid_header entry ≡ true)
      × (length entry.operations < 2 ^ 32)
      × (ops : List ℕ) × (encode_operations entry.operations ≡ some ops)
      × (out_u64 entry.term ++ (out_u64 entry.index ++ (out_u32 (length entry.operations) ++ ops))
          ≡ bytes)
unfolding encode
accepted entry h = elim (Bool-cases (is_valid_header entry)) [
  | inr bad ↦ absurd (ground arith)
  | inl good ↦ elim (Bool-cases (ltb (2 ^ 32 - 1) (length entry.operations))) [
    | inl many ↦ absurd (ground arith)
    | inr few ↦
        let (ops, ho, h2) =
          some_first (encode_operations entry.operations) _ (rw (good, few) at h) in
        (good, ground arith, ops, ho, cc)
  ]
]

-- The bytes of an entry whose term and index have 64 bits, where the codec accepts it, are decoded
-- to that entry.
pub decode-encode_entry :
    (entry : MutationEntry) {bytes : List ℕ}
    → entry.term < 2 ^ 64
    → entry.index < 2 ^ 64
    → encode entry ≡ some bytes
    → decode bytes ≡ some entry
unfolding decode
decode-encode_entry entry {bytes} ht hi h =
    let (valid, few, ops, ho, is) = accepted entry h in
    let tail : List ℕ = out_u32 (length entry.operations) ++ ops in
    let (back, long) = operations_back entry.operations [] ho in
    rw (← is) (
      rw
        (
          in_u64-out_u64 entry.term (out_u64 entry.index ++ tail) ht,
          in_u64-out_u64 entry.index tail hi,
        )
        (ground
          (arith, in_u32-out_u32 (length entry.operations) ops few, rw (append-nil ops) at back)))
