-- ===== src/Pager/Assembly.antt =====
-- `assemble` puts together what `page_out_bulk` took apart (crates/trust-kernel/src/upip_pager.rs).
use mathlib.Core.List.{append_assoc}
use spaceshuttle.Prelude.{
  ℕ, suc, ◌+◌, ◌*◌, ◌<◌, ◌≤◌, ◌≡◌, ◌≢◌, refl, sym, subst, ap, ◌∙◌, List, [], ◌∷◌, ◌++◌, map, some,
  String, true, false, not, ◌&&◌, leb, is_some, arith, ◌==◌, ==_iff, if◌then◌else◌, eq_iff, length,
  length-map, set, All, add64, sub64, u64_mod,
}
use spaceshuttle.Pager.Types.{
  UpipPager, ForkToken, consumed, is_consumed, is_invalid, PageOutResult, complete,
}
use spaceshuttle.Pager.Paging.{position, token_id}
use spaceshuttle.Pager.Bulk.{
  tag, tag_all, tagged, page_out_bulk, belongs, task_ids, after_page_in, assemble_all, assemble,
}
use spaceshuttle.Pager.Fresh.{IsSealed, AreSealed, raw_sizes, tag-IsSealed, bulk_rounds-Adds}
use spaceshuttle.Pager.Tokens.{
  token_id-injective, set-append, position-append, present, page_in_sealed, consume_found,
}

module _ (intent : String) (bus_seq : ℕ) where
  -- Tokens with smaller numbers.
  abbrev AreEarlier : ℕ → List ForkToken → Type 0
  AreEarlier n = All (λ s. (m : ℕ) × (m < n) × (s.id ≡ token_id intent m))

  earlier_differ :
      (n : ℕ) (t : ForkToken) (before : List ForkToken)
      → t.id ≡ token_id intent n
      → AreEarlier n before
      → All (λ s. s.id ≢ t.id) before
  earlier_differ n t [] e earlier = tt
  earlier_differ n t (s ∷ before) e ((m, less, name), earlier) = (
    λ same.
        let equal : m ≡ n = token_id-injective intent m n (sym name ∙ same ∙ e) in
        absurd (omega (arith, less, equal)),
    earlier_differ n t before e earlier,
  )

  earlier_more :
      (n : ℕ) (t : ForkToken) (before : List ForkToken)
      → t.id ≡ token_id intent n
      → AreEarlier n before
      → AreEarlier (suc n) (before ++ t ∷ [])
  earlier_more n t [] e earlier = ((n, omega arith, e), tt)
  earlier_more n t (s ∷ before) e ((m, less, name), earlier) =
      ((m, omega (arith, less), name), earlier_more n t before e earlier)

  -- One token of `assemble`: it is paged in and consumed, where it stands.
  assemble_one :
      (p : UpipPager) (n : ℕ) (before : List ForkToken) (t : ForkToken) (behind : List ForkToken)
      → p.tokens ≡ before ++ t ∷ behind
      → IsSealed intent bus_seq n t
      → AreEarlier n before
      → (after : UpipPager) × (gone : ForkToken) × (after.tokens ≡ before ++ gone ∷ behind)
        × (gone.id ≡ t.id)
        × ((count : ℕ) (ids : List String) (total : ℕ)
            → assemble_all count (t.id ∷ ids) p total
              ≡ assemble_all count ids after (total + t.raw_size))
  unfolding assemble_all
  assemble_one p n before t behind e (name, _, _, out, seal) earlier =
      let i = length before in
      let differ = earlier_differ n t before name earlier in
      let found : position t.id p.tokens ≡ some (i, t) =
        ap (position t.id) e ∙ position-append before t behind differ in
      let p₁ : UpipPager = record p {
        tokens = set p.tokens i (present t);
        pages_in = add64 p.pages_in 1;
        bytes_paged_in = add64 p.bytes_paged_in t.raw_size;
      } in
      let tokens₁ : p₁.tokens ≡ before ++ present t ∷ behind =
        ap (λ ts. set ts i (present t)) e ∙ set-append before t (present t) behind in
      let found₁ : position t.id p₁.tokens ≡ some (i, present t) =
        ap (position t.id) tokens₁ ∙ position-append before (present t) behind differ in
      let gone : ForkToken = record (present t) { state = consumed } in
      let after : UpipPager = record p₁ { tokens = set p₁.tokens i gone } in
      (
        after,
        gone,
        ap (λ ts. set ts i gone) tokens₁ ∙ set-append before (present t) gone behind,
        refl,
        λ count ids total.
            ap (after_page_in t.id total (assemble_all count ids))
              (page_in_sealed p i t found out seal)
            ∙ ap (λ q. assemble_all count ids q (total + t.raw_size))
                (consume_found p₁ i (present t) found₁),
      )

  assemble_all_sealed :
      (ts : List ForkToken) (n : ℕ) (before : List ForkToken) (p : UpipPager) (count total : ℕ)
      → p.tokens ≡ before ++ ts
      → AreSealed intent bus_seq n ts
      → AreEarlier n before
      → (assemble_all count (map (λ t. t.id) ts) p total).1
        ≡ complete count (total + raw_sizes ts) true
  unfolding assemble_all
  assemble_all_sealed [] n before p count total e sealed earlier =
      ap (λ k. complete count k true) plain
    where
      plain : total ≡ total + 0
      plain = omega arith
  assemble_all_sealed (t ∷ ts) n before p count total e (sealed, others) earlier =
      let (after, gone, tokens, same, step) = assemble_one p n before t ts e sealed earlier in
      let sum : (total + t.raw_size) + raw_sizes ts ≡ total + raw_sizes (t ∷ ts) = omega arith in
      ap (λ r. r.1) (step count (map (λ t'. t'.id) ts) total)
      ∙ assemble_all_sealed ts (suc n) (before ++ gone ∷ []) after count (total + t.raw_size)
          (tokens ∙ sym (append_assoc before (gone ∷ []) ts)) others
          (earlier_more n gone before (same ∙ sealed.0) earlier)
      ∙ ap (λ k. complete count k true) sum

  task_ids_sealed :
      (ts : List ForkToken) (n : ℕ)
      → AreSealed intent bus_seq n ts
      → task_ids intent bus_seq ts ≡ map (λ t. t.id) ts
  unfolding task_ids belongs
  task_ids_sealed [] n sealed = refl
  task_ids_sealed (t ∷ ts) n ((_, same, seq, out, _), others) =
      let h₁ = (eq_iff t.intent intent).1 same in
      let h₂ = (==_iff t.bus_seq bus_seq).1 seq in
      let h₃ : is_consumed t.state ≡ false = ap is_consumed out in
      let h₄ : is_invalid t.state ≡ false = ap is_invalid out in
      rw (h₁, h₂, h₃, h₄) (ap (t.id ∷◌) (task_ids_sealed ts (suc n) others))

  -- Sealed tokens, numbered in a row and nothing else, are put together whole.
  assemble_sealed :
      (p : UpipPager) (n : ℕ)
      → 0 < length p.tokens
      → AreSealed intent bus_seq n p.tokens
      → (assemble p intent bus_seq).1 ≡ complete (length p.tokens) (raw_sizes p.tokens) true
  unfolding assemble
  assemble_sealed p n some_tokens sealed =
      let ids = task_ids_sealed p.tokens n sealed in
      let count = length-map (λ (t : ForkToken). t.id) p.tokens in
      let plain : 0 + raw_sizes p.tokens ≡ raw_sizes p.tokens = omega arith in
      let present_ids : (length p.tokens == 0) ≡ false = ground arith in
      rw (ids, count, present_ids)
        (assemble_all_sealed p.tokens n [] p (length p.tokens) 0 refl sealed tt
          ∙ ap (λ k. complete (length p.tokens) k true) plain)

  tag_all-AreSealed :
      (start total n : ℕ) (ts : List ForkToken)
      → AreSealed intent bus_seq n ts
      → AreSealed intent bus_seq n (map (tag start total) ts)
  tag_all-AreSealed start total n [] sealed = tt
  tag_all-AreSealed start total n (t ∷ ts) (sealed, others) = (
    tag-IsSealed intent bus_seq start total n t sealed,
    tag_all-AreSealed start total (suc n) ts others,
  )

raw_size-tag : (start total : ℕ) (t : ForkToken) → (tag start total t).raw_size ≡ t.raw_size
raw_size-tag start total t =
    elim (leb start t.chunk_seq && not (is_some t.total_chunks))
      as (λ b. (if b then record t { total_chunks = some total } else t).raw_size ≡ t.raw_size) [
        | true ↦ refl
        | false ↦ refl
      ]

raw_sizes-tag :
    (start total : ℕ) (ts : List ForkToken) → raw_sizes (map (tag start total) ts) ≡ raw_sizes ts
raw_sizes-tag start total [] = refl
raw_sizes-tag start total (t ∷ ts) =
    omega (arith, raw_size-tag start total t, raw_sizes-tag start total ts)

some_bytes : (ts : List ForkToken) → 0 < raw_sizes ts → 0 < length ts
some_bytes [] h = absurd (omega arith)
some_bytes (t ∷ ts) h = omega arith

-- On a pager without tokens, with a chunk size other than 0 and numbers left below 2 ^ 64: any
-- data of at least one byte and at most 256 chunks is paged out within as many rounds as it has
-- bytes, and `assemble` for the same intent and bus number then puts it together whole, with every
-- seal verified: as many chunks as the page-out had results, and as many bytes as the data.
pub assemble-page_out_bulk :
    (p : UpipPager) (chunk_data : List ℕ) (base_offset : ℕ) (intent from_aint : String)
    (bus_seq : ℕ)
    → p.tokens ≡ []
    → 0 < length chunk_data
    → 0 < p.chunk_size
    → length chunk_data ≤ 256 * p.chunk_size
    → p.next_token_id + 256 < u64_mod
    → (after : UpipPager) × (results : List PageOutResult) × (page_out_bulk
          (length chunk_data)
          p
          chunk_data
          base_offset
          intent
          from_aint
          bus_seq
        ≡ some (after, results))
      × ((assemble after intent bus_seq).1 ≡ complete (length results) (length chunk_data) true)
unfolding page_out_bulk tag_all
assemble-page_out_bulk p chunk_data base_offset intent from_aint bus_seq none_yet some_data positive
      fits numbers =
    let empty : length p.tokens ≡ 0 = ap length none_yet in
    let (end, results, ts, ended, tokens, _, sealed, sizes, count) =
      bulk_rounds-Adds intent from_aint bus_seq (length chunk_data) 256 p chunk_data base_offset
        positive (omega arith) fits (omega (arith, empty)) numbers in
    let after = tag_all end results in
    let total = length results in
    let start = sub64 end.next_token_id total in
    let tagged_tokens : after.tokens ≡ map (tag start total) ts =
      ap (map (tag start total)) (tokens ∙ ap (λ before. before ++ ts) none_yet) in
    let same_length : length after.tokens ≡ length results =
      ap length tagged_tokens ∙ length-map (tag start total) ts ∙ sym count in
    let same_bytes : raw_sizes after.tokens ≡ length chunk_data =
      ap raw_sizes tagged_tokens ∙ raw_sizes-tag start total ts ∙ sizes in
    (
      after,
      results,
      ap tagged ended,
      assemble_sealed intent bus_seq after p.next_token_id
            (some_bytes after.tokens (omega (arith, same_bytes)))
            (subst (AreSealed intent bus_seq p.next_token_id) (sym tagged_tokens)
              (tag_all-AreSealed intent bus_seq start total p.next_token_id ts sealed))
          ∙ ap (λ k. complete k (raw_sizes after.tokens) true) same_length
          ∙ ap (λ k. complete (length results) k true) same_bytes,
    )
