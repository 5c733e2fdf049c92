-- ===== src/Raft/Entry.antt =====
-- Raft/RaftEntry.h and Raft/RaftEntryCodec.cpp: the entries of the Raft log and their bytes.
pub mod RoundTrip
use stoneleaf_db.Common.{
  ℕ, zero, suc, ◌+◌, ◌-◌, ◌/◌, ◌^◌, Bool, true, false, not, ◌||◌, Option, none, some, List, [], ◌∷◌,
  ◌++◌, length, ltb, ◌==◌, if◌then◌else◌,
}
use stoneleaf_db.Encoding.Key.{Key}
use stoneleaf_db.Encoding.Value.{Value}
use stoneleaf_db.Encoding.Stream.{
  ◌>>=◌, Reader, out_u32, out_u64, in_u8, in_u32, in_u64, write_key, read_key, write_value,
  read_value,
}

pub data MutationType : Type 0 where
  put delete : MutationType

pub data Mutation : Type 0 where
  put_mutation : Key → Value → Mutation
  delete_mutation : Key → Mutation

pub record MutationOp : Type 0 where
  pub type : MutationType
  pub operation : Mutation

pub record MutationEntry : Type 0 where
  pub term : ℕ
  pub index : ℕ
  pub operations : List MutationOp

-- `validate_header`
abbrev pub is_valid_header : MutationEntry → Bool
is_valid_header entry = not (entry.term == 0 || entry.index == 0)

-- `static_cast<std::uint8_t>(mutation.type)`
abbrev pub mutation_code : MutationType → ℕ
mutation_code put = 0
mutation_code delete = 1

abbrev write_mutation : MutationType → Mutation → Option (List ℕ)
write_mutation put (put_mutation key value) =
    write_key key >>= λ k. write_value value >>= λ v. some (k ++ v)
write_mutation put (delete_mutation key) = none
write_mutation delete (put_mutation key value) = none
write_mutation delete (delete_mutation key) = write_key key

-- The loop of `encode` over the mutations.
unfoldable pub encode_operations : List MutationOp → Option (List ℕ)
encode_operations [] = some []
encode_operations (op ∷ ops) = write_mutation op.type op.operation >>= λ bytes.
    encode_operations ops >>= λ rest. some (mutation_code op.type ∷ bytes ++ rest)

-- RaftEntryCodec::encode
unfoldable pub encode : MutationEntry → Option (List ℕ)
encode entry =
    if not (is_valid_header entry)
    then none
    else if ltb (2 ^ 32 - 1) (length entry.operations)
    then none
    else encode_operations entry.operations >>= λ bytes. some (
        out_u64 entry.term ++ (out_u64 entry.index ++ (out_u32 (length entry.operations) ++ bytes)))

abbrev read_mutation : ℕ → Reader MutationOp
read_mutation code rest =
    if code == 0
    then (read_key rest >>= λ (key, r1). read_value r1 >>= λ (value, r2).
        some (record { type = put; operation = put_mutation key value }, r2))
    else if code == 1
    then (read_key rest >>= λ (key, r1).
        some (record { type = delete; operation = delete_mutation key }, r1))
    else none

-- The loop of `decode` over the mutations.
unfoldable pub decode_operations : ℕ → Reader (List MutationOp)
decode_operations zero rest = some ([], rest)
decode_operations (suc n) rest = in_u8 rest >>= λ (code, r1). read_mutation code r1 >>= λ (op, r2).
    decode_operations n r2 >>= λ (ops, r3). some (op ∷ ops, r3)

abbrev pub minimum_operation_size : ℕ
minimum_operation_size = 6

-- `in.finish()`
abbrev finish : MutationEntry → List ℕ → Option MutationEntry
finish entry [] = some entry
finish entry (b ∷ rest) = none

-- RaftEntryCodec::decode
unfoldable pub decode : List ℕ → Option MutationEntry
decode encoded = in_u64 encoded >>= λ (term, r1). in_u64 r1 >>= λ (index, r2).
    if not (is_valid_header (record { term = term; index = index; operations = [] }))
    then none
    else in_u32 r2 >>= λ (count, r3).
        if ltb (length r3 / minimum_operation_size) count
        then none
        else decode_operations count r3 >>= λ (ops, r4).
            finish (record { term = term; index = index; operations = ops }) r4
