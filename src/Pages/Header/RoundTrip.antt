-- ===== src/Pages/Header/RoundTrip.antt =====
-- Reading what DBHeaderCodec.cpp wrote.
use stoneleaf_db.Common.{ℕ, ◌+◌, ◌^◌, ◌≤◌, ◌<◌, ◌≡◌, ◌∙◌, inl, List, length, take, arith}
use stoneleaf_db.Common.Bytes.{byte_at, write, byte_at-write, length-write, take-bytes}
use stoneleaf_db.Encoding.Endian.{put_u32_be, get_u32_be}
use stoneleaf_db.Encoding.Endian.Laws.{get_u32_be-put_u32_be, length-put_u32_be, put_u32_be-outside}
use stoneleaf_db.Encoding.Endian.Apart.{get_u32_be-put_u32_be_apart}
use stoneleaf_db.Pages.Header.{DbHeader, serialize, deserialize}

-- The header's fields are those of the C++ types.
pub record Fits (h : DbHeader) : Type 0 where
  pub magic_bytes : length h.magic_header ≡ 16
  pub counter : h.file_change_counter < 2 ^ 32
  pub count : h.db_page_count < 2 ^ 32
  pub head : h.freelist_head_page_num < 2 ^ 32
  pub free : h.freelist_page_count < 2 ^ 32
  pub root : h.btree_root_page_num < 2 ^ 32

module _ (h : DbHeader) (out : List ℕ) (fits : Fits h) (room : 36 ≤ length out) where
  abbrev magic : List ℕ
  magic = write out 0 h.magic_header

  abbrev b1 : List ℕ
  b1 = put_u32_be magic 16 h.file_change_counter

  abbrev b2 : List ℕ
  b2 = put_u32_be b1 20 h.db_page_count

  abbrev b3 : List ℕ
  b3 = put_u32_be b2 24 h.freelist_head_page_num

  abbrev b4 : List ℕ
  b4 = put_u32_be b3 28 h.freelist_page_count

  abbrev b5 : List ℕ
  b5 = put_u32_be b4 32 h.btree_root_page_num

  l0 : 36 ≤ length magic
  l0 = omega (arith, length-write out 0 h.magic_header)

  l1 : 36 ≤ length b1
  l1 = omega (arith, l0, length-put_u32_be magic 16 h.file_change_counter)

  l2 : 36 ≤ length b2
  l2 = omega (arith, l1, length-put_u32_be b1 20 h.db_page_count)

  l3 : 36 ≤ length b3
  l3 = omega (arith, l2, length-put_u32_be b2 24 h.freelist_head_page_num)

  l4 : 36 ≤ length b4
  l4 = omega (arith, l3, length-put_u32_be b3 28 h.freelist_page_count)

  l5 : 36 ≤ length b5
  l5 = omega (arith, l4, length-put_u32_be b4 32 h.btree_root_page_num)

  -- A number before the last four stays through the later writes.
  from_b2 : (k : ℕ) → k + 4 ≤ 24 → get_u32_be b5 k ≡ get_u32_be b2 k
  from_b2 k p =
      get_u32_be-put_u32_be_apart b4 32 h.btree_root_page_num k (omega (arith, l4))
        (inl (omega arith))
      ∙ (get_u32_be-put_u32_be_apart b3 28 h.freelist_page_count k (omega (arith, l3))
            (inl (omega arith))
          ∙ get_u32_be-put_u32_be_apart b2 24 h.freelist_head_page_num k (omega (arith, l2))
              (inl (omega arith)))

  magic_byte : (i : ℕ) → i < 16 → byte_at b5 i ≡ byte_at h.magic_header i
  magic_byte i p =
      put_u32_be-outside b4 32 h.btree_root_page_num i (omega (arith, l4)) (inl (omega arith))
      ∙ (put_u32_be-outside b3 28 h.freelist_page_count i (omega (arith, l3)) (inl (omega arith))
          ∙ (put_u32_be-outside b2 24 h.freelist_head_page_num i (omega (arith, l2))
                (inl (omega arith))
              ∙ (put_u32_be-outside b1 20 h.db_page_count i (omega (arith, l1)) (inl (omega arith))
                  ∙ (put_u32_be-outside magic 16 h.file_change_counter i (omega (arith, l0))
                        (inl (omega arith))
                      ∙ ground (arith, fits.magic_bytes, byte_at-write out 0 h.magic_header i)))))

  magic_back : take 16 b5 ≡ h.magic_header
  magic_back = rw (fits.magic_bytes) at (
      take-bytes h.magic_header b5 (omega (arith, l5, fits.magic_bytes))
        (λ i p. magic_byte i (omega (arith, fits.magic_bytes))))

  counter_back : get_u32_be b5 16 ≡ h.file_change_counter
  counter_back =
      from_b2 16 (omega arith)
      ∙ (get_u32_be-put_u32_be_apart b1 20 h.db_page_count 16 (omega (arith, l1))
            (inl (omega arith))
          ∙ get_u32_be-put_u32_be magic 16 h.file_change_counter (omega (arith, l0)) fits.counter)

  count_back : get_u32_be b5 20 ≡ h.db_page_count
  count_back =
      from_b2 20 (omega arith)
      ∙ get_u32_be-put_u32_be b1 20 h.db_page_count (omega (arith, l1)) fits.count

  head_back : get_u32_be b5 24 ≡ h.freelist_head_page_num
  head_back =
      get_u32_be-put_u32_be_apart b4 32 h.btree_root_page_num 24 (omega (arith, l4))
        (inl (omega arith))
      ∙ (get_u32_be-put_u32_be_apart b3 28 h.freelist_page_count 24 (omega (arith, l3))
            (inl (omega arith))
          ∙ get_u32_be-put_u32_be b2 24 h.freelist_head_page_num (omega (arith, l2)) fits.head)

  free_back : get_u32_be b5 28 ≡ h.freelist_page_count
  free_back =
      get_u32_be-put_u32_be_apart b4 32 h.btree_root_page_num 28 (omega (arith, l4))
        (inl (omega arith))
      ∙ get_u32_be-put_u32_be b3 28 h.freelist_page_count (omega (arith, l3)) fits.free

  root_back : get_u32_be b5 32 ≡ h.btree_root_page_num
  root_back = get_u32_be-put_u32_be b4 32 h.btree_root_page_num (omega (arith, l4)) fits.root

  -- A database header with 16 magic bytes and fields of 32 bits that is written into a buffer of
  -- at least 36 bytes is read back from it as it was.
  pub deserialize-serialize : deserialize (serialize h out) ≡ h
  unfolding serialize deserialize
  deserialize-serialize =
      rw (magic_back, counter_back, count_back) (rw (head_back, free_back, root_back))
