-- ===== src/Tests/Codecs.antt =====
-- The codecs on concrete keys, values, numbers and pages.
use stoneleaf_db.Common.{
  ℕ, ◌+◌, ◌%◌, ◌^◌, ◌≤◌, true, false, some, List, [], ◌∷◌, length, replicate, length-replicate, ◌≡◌,
  ◌↔◌, refl, arith,
}
use stoneleaf_db.Common.Int.{pos, negsuc}
use stoneleaf_db.Encoding.Endian.{put_u64_be, get_u64_be}
use stoneleaf_db.Encoding.Endian.Laws.{get_u64_be-put_u64_be}
use stoneleaf_db.Encoding.Key.{
  Key, KeyType, KeyInput, of_string, encode, decode, validate_key, make_string, make_int64,
  make_bytes, make_bool, compare,
}
use stoneleaf_db.Encoding.Key.RoundTrip.{encode-decode}
use stoneleaf_db.Encoding.Key.Order.{compare-make_int64, compare_trans, compare-opposite, equal_iff}
use stoneleaf_db.Encoding.Key.Lex.{opposite}
use stoneleaf_db.Encoding.Value.{
  Value, var_uint, of_int64, encode_varuint_bytes, decode_varuint_bytes, zigzag_encode,
  make_varuint, validate_value,
}
use stoneleaf_db.Encoding.Value
use stoneleaf_db.Encoding.Key
use stoneleaf_db.Pages.Codec
use stoneleaf_db.Encoding.Value.RoundTrip.{encode-decode_value}
use stoneleaf_db.Encoding.Value.Varint.{
  decode-encode_varuint, zigzag_encode-interleaved, decode_varuint-padded, padded,
}
use stoneleaf_db.Net.Codec.{serialize_key, deserialize_key, serialize_value, deserialize_value}
use stoneleaf_db.Net.Codec.RoundTrip.{
  deserialize_key-serialize_key, deserialize_value-serialize_value,
}
use stoneleaf_db.Pages.Codec.{initialize, validate, success, page_num, page_lsn, page_kind}
use stoneleaf_db.Pages.Codec.Laws.{validate-initialize}
use stoneleaf_db.Pages.Header.{DbHeader, serialize, deserialize, magic_string}
use stoneleaf_db.Pages.Header.RoundTrip.{deserialize-serialize}
use stoneleaf_db.Pages.Journal.{page_checksum}
use stoneleaf_db.Pages.Journal.Checksum.{page_checksum-sum}

abbrev two_letters : List ℕ
two_letters = 0x68 ∷ 0x69 ∷ []

encode-decode_example :
    (key : Key) × (encode (of_string two_letters) ≡ some key)
    × (validate_key key ≡ true)
    × (decode key ≡ some (of_string two_letters))
encode-decode_example = encode-decode (of_string two_letters) (omega arith)

compare-make_int64_example : compare (make_int64 (negsuc 4)) (make_int64 (pos 3)) ≡ negsuc 0
compare-make_int64_example = compare-make_int64 (negsuc 4) (pos 3) (omega arith) (omega arith)

bool_before_text : compare (make_bool true) (make_string two_letters) ≡ negsuc 0
unfolding make_bool make_string compare
bool_before_text = refl

text_before_bytes : compare (make_string two_letters) (make_bytes []) ≡ negsuc 0
unfolding make_string make_bytes compare
text_before_bytes = refl

compare_trans_example : compare (make_bool true) (make_bytes []) ≡ negsuc 0
compare_trans_example =
    compare_trans (make_bool true) (make_string two_letters) (make_bytes []) bool_before_text
      text_before_bytes

compare-opposite_example :
    compare (make_bool true) (make_bool false)
    ≡ opposite (compare (make_bool false) (make_bool true))
compare-opposite_example = compare-opposite (make_bool false) (make_bool true)

equal_iff_example : (Key.equal (make_bool true) (make_string two_letters) ≡ true) ↔ (
    ((make_bool true).type ≡ (make_string two_letters).type)
    × ((make_bool true).payload ≡ (make_string two_letters).payload))
equal_iff_example = equal_iff (make_bool true) (make_string two_letters)

encode-decode_value_example :
    (value : Value) × (Value.encode (of_int64 (negsuc 299)) ≡ some value)
    × (validate_value value ≡ true)
    × (Value.decode value ≡ some (of_int64 (negsuc 299)))
encode-decode_value_example = encode-decode_value (of_int64 (negsuc 299)) (omega arith)

decode-encode_varuint_example :
    (length (encode_varuint_bytes 300) ≤ 10)
    × (decode_varuint_bytes (encode_varuint_bytes 300) ≡ some 300)
decode-encode_varuint_example = decode-encode_varuint 300 (omega arith)

zigzag_encode-interleaved_example : zigzag_encode (negsuc 4) ≡ 9
zigzag_encode-interleaved_example = zigzag_encode-interleaved (negsuc 4) (omega arith)

decode_varuint-padded_example : decode_varuint_bytes (padded 3) ≡ some (2 ^ 63)
decode_varuint-padded_example = decode_varuint-padded 3 (omega arith)

get_u64_be-put_u64_be_example : get_u64_be (put_u64_be (replicate 12 7) 2 600) 2 ≡ 600
get_u64_be-put_u64_be_example =
    get_u64_be-put_u64_be (replicate 12 7) 2 600 (omega arith) (omega arith)

text_is_valid : validate_key (make_string two_letters) ≡ true
unfolding validate_key make_string
text_is_valid = refl

deserialize_key-serialize_key_example :
    (buffer : List ℕ) × (serialize_key (make_string two_letters) ≡ some buffer)
    × (deserialize_key buffer ≡ some (make_string two_letters))
deserialize_key-serialize_key_example =
    deserialize_key-serialize_key (make_string two_letters) text_is_valid

abbrev three_hundred : Value
three_hundred = record { type = var_uint; size = 2; payload = 0xAC ∷ 0x02 ∷ [] }

number_is_valid : validate_value three_hundred ≡ true
unfolding validate_value decode_varuint_bytes
number_is_valid = refl

deserialize_value-serialize_value_example :
    (buffer : List ℕ) × (serialize_value three_hundred ≡ some buffer)
    × (deserialize_value buffer ≡ some three_hundred)
deserialize_value-serialize_value_example =
    deserialize_value-serialize_value three_hundred number_is_valid

-- A leaf page with number 7 over a page that held other bytes.
abbrev old_page : List ℕ
old_page = replicate 4096 9

leaf_is_valid : Codec.is_valid_page_kind 4 ≡ true
unfolding Codec.is_valid_page_kind
leaf_is_valid = refl

validate-initialize_example :
    (p : List ℕ) × (initialize old_page 7 4 ≡ some p)
    × (validate p ≡ success)
    × (page_num p ≡ 7)
    × (page_lsn p ≡ 0)
    × (page_kind p ≡ 4)
validate-initialize_example =
    validate-initialize old_page 7 4 (length-replicate {A = ℕ} 4096 9) (omega arith) leaf_is_valid

abbrev some_header : DbHeader
some_header = record {
  magic_header = magic_string;
  file_change_counter = 3;
  db_page_count = 12;
  freelist_head_page_num = 9;
  freelist_page_count = 2;
  btree_root_page_num = 1;
}

deserialize-serialize_example : deserialize (serialize some_header (replicate 40 0)) ≡ some_header
deserialize-serialize_example =
    deserialize-serialize some_header (replicate 40 0)
      (record {
        magic_bytes = refl;
        counter = omega arith;
        count = omega arith;
        head = omega arith;
        free = omega arith;
        root = omega arith;
      })
      (omega arith)

page_checksum-sum_example : page_checksum 7 (replicate 450 1) ≡ (7 + (1 + (1 + 0))) % 2 ^ 32
page_checksum-sum_example = page_checksum-sum 7 (replicate 450 1) (omega arith)
