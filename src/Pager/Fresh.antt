-- ===== src/Pager/Fresh.antt =====
-- The tokens that `page_out_bulk` makes (crates/trust-kernel/src/upip_pager.rs).
use mathlib.Core.List.{append_assoc, append-nil}
use native.Mathlib.Nat.{suc-mul}
use spaceshuttle.Prelude.{
  ℕ, zero, suc, ◌+◌, ◌*◌, ◌≤◌, ◌<◌, ◌≡◌, refl, sym, subst, ap, ◌∙◌, List, [], ◌∷◌, ◌++◌, Option,
  some, String, true, false, not, ◌&&◌, arith, leb, ◌==◌, is_some, if◌then◌else◌, length, take,
  drop, length-append, length-drop, length-take, u64_mod,
}
use spaceshuttle.Pager.Types.{UpipPager, ForkToken, PageOutResult, page_out_success, paged_out}
use spaceshuttle.Pager.Paging.{page_out, add_token, fork_token, token_id, seal_of}
use spaceshuttle.Pager.Bulk.{bulk_rounds, with_result, tag}

abbrev pub raw_sizes : List ForkToken → ℕ
raw_sizes [] = 0
raw_sizes (t ∷ ts) = t.raw_size + raw_sizes ts

module _ (intent : String) (bus_seq : ℕ) where
  -- A token as `page_out` makes it with number `n`, but for its total.
  abbrev pub IsSealed : ℕ → ForkToken → Type 0
  IsSealed n t =
      (t.id ≡ token_id intent n)
      × (t.intent ≡ intent)
      × (t.bus_seq ≡ bus_seq)
      × (t.state ≡ paged_out)
      × (t.ed25519_seal ≡ seal_of t.content_hash t.compressed_hash t.intent t.bus_seq)

  -- Tokens numbered from `n` on.
  abbrev pub AreSealed : ℕ → List ForkToken → Type 0
  AreSealed n [] = Unit
  AreSealed n (t ∷ ts) = IsSealed n t × AreSealed (suc n) ts

  pub tag-IsSealed :
      (start total n : ℕ) (t : ForkToken) → IsSealed n t → IsSealed n (tag start total t)
  tag-IsSealed start total n t sealed =
      elim (leb start t.chunk_seq && not (is_some t.total_chunks))
        as (λ b. IsSealed n (if b then record t { total_chunks = some total } else t)) [
          | true ↦ sealed
          | false ↦ sealed
        ]

module _ (intent from_aint : String) (bus_seq : ℕ) where
  fork_token-IsSealed :
      (chunk : List ℕ) (at n : ℕ)
      → IsSealed intent bus_seq n (fork_token chunk at intent from_aint bus_seq n)
  unfolding fork_token
  fork_token-IsSealed chunk at n = (refl, refl, refl, refl, refl)

  -- Where there is room, a page-out of some bytes adds the chunk's token.
  page_out_adds :
      (p : UpipPager) (chunk : List ℕ) (at : ℕ)
      → 0 < length chunk
      → length p.tokens < 256
      → page_out p chunk at intent from_aint bus_seq ≡ (
        add_token p (fork_token chunk at intent from_aint bus_seq p.next_token_id) (length chunk),
        page_out_success
            (fork_token chunk at intent from_aint bus_seq p.next_token_id)
            (length chunk),
      )
  unfolding page_out
  page_out_adds p chunk at some_bytes room =
      let h₁ : (length chunk == 0) ≡ false = ground arith in
      let h₂ : leb 256 (length p.tokens) ≡ false = ground arith in rw (h₁, h₂) refl

  -- What the loop makes of the rest of the data: tokens behind those that were there.
  abbrev pub Adds : UpipPager → List ℕ → Option (UpipPager × List PageOutResult) → Type 0
  Adds p rest ended =
      (after : UpipPager) × (results : List PageOutResult) × (ts : List ForkToken) × (ended
        ≡ some (after, results))
      × (after.tokens ≡ p.tokens ++ ts)
      × (after.next_token_id ≡ p.next_token_id + length ts)
      × AreSealed intent bus_seq p.next_token_id ts
      × (raw_sizes ts ≡ length rest)
      × (length results ≡ length ts)

  pub bulk_rounds-Adds :
      (fuel k : ℕ) (p : UpipPager) (rest : List ℕ) (at : ℕ)
      → 0 < p.chunk_size
      → length rest ≤ fuel
      → length rest ≤ k * p.chunk_size
      → length p.tokens + k ≤ 256
      → p.next_token_id + k < u64_mod
      → Adds p rest (bulk_rounds intent from_aint bus_seq fuel p rest at)
  unfolding bulk_rounds add_token fork_token
  bulk_rounds-Adds fuel k p [] at positive enough chunks room numbers =
      (p, [], [], refl, sym (append-nil p.tokens), omega arith, tt, refl, refl)
  bulk_rounds-Adds zero k p (x ∷ xs) at positive enough chunks room numbers = absurd (omega arith)
  bulk_rounds-Adds (suc fuel) zero p (x ∷ xs) at positive enough chunks room numbers =
      absurd (omega arith)
  bulk_rounds-Adds (suc fuel) (suc k) p (x ∷ xs) at positive enough chunks room numbers =
      let chunk = take p.chunk_size (x ∷ xs) in
      let rest = drop p.chunk_size (x ∷ xs) in
      let taken = length-take p.chunk_size (x ∷ xs) in
      let dropped = length-drop p.chunk_size (x ∷ xs) in
      let product = suc-mul k p.chunk_size in
      let token = fork_token chunk at intent from_aint bus_seq p.next_token_id in
      let p₁ = add_token p token (length chunk) in
      let one_longer = length-append p.tokens (token ∷ []) in
      let next : p₁.next_token_id ≡ suc p.next_token_id = omega (arith, numbers) in
      let (after, results, ts, ended, tokens, number, sealed, sizes, count) =
        bulk_rounds-Adds fuel k p₁ rest (at + length chunk) positive (omega (arith, dropped))
          (omega (arith, dropped, product, chunks)) (omega (arith, one_longer))
          (omega (arith, next)) in
      (
        after,
        page_out_success token (length chunk) ∷ results,
        token ∷ ts,
        ap
              (λ (r : UpipPager × PageOutResult).
                with_result r.1
                  (bulk_rounds intent from_aint bus_seq fuel r.0 rest (at + length chunk)))
              (page_out_adds p chunk at (omega (arith, taken)) (omega arith))
            ∙ ap (with_result (page_out_success token (length chunk))) ended,
        tokens ∙ append_assoc p.tokens (token ∷ []) ts,
        omega (arith, number, next),
        (
          fork_token-IsSealed chunk at p.next_token_id,
          subst (λ n. AreSealed intent bus_seq n ts) next sealed,
        ),
        omega (arith, sizes, taken, dropped),
        ap suc count,
      )
