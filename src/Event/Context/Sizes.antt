-- ===== src/Event/Context/Sizes.antt =====
-- Transaction_context_log_event: the announced size is that of the parts.
use knowledge_base.Base.{
  ℕ, ◌+◌, ◌%◌, ◌^◌, ◌<◌, List, [], ◌∷◌, ◌++◌, length, length-append, take, take_all, All, ◌≡◌, refl,
  ap, ◌∙◌, arith,
}
use knowledge_base.Event.{Calls}
use knowledge_base.Event.Layout.{joined}
use knowledge_base.Event.Gtid.Sizes.{SizeLaws}
use knowledge_base.Event.Context.{
  TransactionContext, context_header_length, item_length_size, get_data_set_size, get_context_size,
  context_header, write_data_set,
}

-- Every item is shorter than a uint16 can hold.
abbrev pub AreShort : List (List ℕ) → Type 0
AreShort = All (λ (hash : List ℕ). length hash < 2 ^ 16)

length-item :
    (k n : ℕ) (a b c : List ℕ)
    → length a ≡ k
    → length b ≡ n
    → length (a ++ (b ++ c)) ≡ k + n + length c
length-item k n a b c e1 e2 =
    length-append a (b ++ c) ∙ ap (λ m. length a + m) (length-append b c) ∙ omega (arith, e1, e2)

whole_hash :
    (hash : List ℕ) → length hash < 2 ^ 16 → length (take (length hash % 2 ^ 16) hash) ≡ length hash
whole_hash hash short =
    let small : length hash % 2 ^ 16 ≡ length hash = omega (arith, short) in
    ap (λ n. length (take n hash)) small ∙ ap length (take_all hash)

module _ (calls : Calls) (laws : SizeLaws calls) where
  length-context_header :
      (c : TransactionContext) → length (context_header calls c) ≡ context_header_length
  unfolding context_header
  length-context_header c = simp (length-append {A = ℕ}, laws.length-int_store) refl

  length-write_data_set :
      (set parts : List (List ℕ))
      → AreShort set
      → length (joined (write_data_set calls set parts))
        ≡ get_data_set_size set + length (joined parts)
  unfolding write_data_set get_data_set_size
  length-write_data_set [] parts h = omega arith
  length-write_data_set (hash ∷ set) parts (short, h) =
      let len = length hash % 2 ^ 16 in
      let rest = joined (write_data_set calls set parts) in
      let here =
        length-item item_length_size (length hash) (calls.int_store item_length_size len)
          (take len hash) rest (laws.length-int_store item_length_size len)
          (whole_hash hash short) in
      here
      ∙ ap (λ n. item_length_size + length hash + n) (length-write_data_set set parts h)
      ∙ omega arith

  pub length-context :
      (c : TransactionContext)
      → AreShort c.write_set
      → AreShort c.read_set
      → length (
          joined (
            context_header calls c
            ∷ c.server_uuid
            ∷ c.snapshot_version
            ∷ write_data_set calls c.write_set (write_data_set calls c.read_set [])))
        ≡ get_context_size c
  unfolding get_context_size
  length-context c ws rs =
      let sets = joined (write_data_set calls c.write_set (write_data_set calls c.read_set [])) in
      length-item context_header_length (length c.server_uuid) (context_header calls c)
        c.server_uuid (c.snapshot_version ++ sets) (length-context_header c) refl
      ∙ ap (λ n. context_header_length + length c.server_uuid + n)
          (length-append c.snapshot_version sets
            ∙ ap (λ n. length c.snapshot_version + n)
                (length-write_data_set c.write_set (write_data_set calls c.read_set []) ws
                  ∙ ap (λ n. get_data_set_size c.write_set + n)
                      (length-write_data_set c.read_set [] rs)))
      ∙ omega arith
