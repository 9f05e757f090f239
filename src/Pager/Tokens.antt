-- ===== src/Pager/Tokens.antt =====
-- Finding and paging in one token among others (crates/trust-kernel/src/upip_pager.rs).
use text.Mathlib.TextLemmas.{append_cancel_left, append_cancel_right}
use spaceshuttle.Prelude.{
  ℕ, ◌≡◌, ◌≢◌, refl, ap, List, [], ◌∷◌, ◌++◌, some, String, false, inl, inr, Bool-cases, str_eq,
  eq_iff, length, set, All, add64,
}
use spaceshuttle.Prelude.Text.{decimal}
use spaceshuttle.Prelude.Text.Decimal.{decimal-injective}
use spaceshuttle.Pager.Types.{
  UpipPager, ForkToken, paged_out, paged_in, consumed, is_consumed, page_in_success,
}
use spaceshuttle.Pager.Paging.{
  position, page_in, page_in_at, consume, token_id, seal_of, replace_colons,
}

-- The tokens of one intent have different ids.
pub token_id-injective : (intent : String) (m n : ℕ) → token_id intent m ≡ token_id intent n → m ≡ n
unfolding token_id
token_id-injective intent m n e = decimal-injective m n (
    append_cancel_right (decimal m) (decimal n) "" (
      append_cancel_left "_" _ _ (
        append_cancel_left (replace_colons "_" intent) _ _
          (append_cancel_left "upip_fork_" _ _ e))))

pub set-append {ℓ} :
    {A : Type ℓ} (xs : List A) (y v : A) (ys : List A)
    → set (xs ++ y ∷ ys) (length xs) v ≡ xs ++ v ∷ ys
set-append [] y v ys = refl
set-append (x ∷ xs) y v ys = ap (x ∷◌) (set-append xs y v ys)

-- A token behind others with other ids is found.
pub position-append :
    (before : List ForkToken) (t : ForkToken) (behind : List ForkToken)
    → All (λ s. s.id ≢ t.id) before
    → position t.id (before ++ t ∷ behind) ≡ some (length before, t)
unfolding position
position-append [] t behind others = rw ((eq_iff t.id t.id).1 refl) refl
position-append (s ∷ before) t behind (differs, others) = elim (Bool-cases (str_eq s.id t.id)) [
  | inl same ↦ absurd (differs ((eq_iff s.id t.id).0 same))
  | inr differ ↦ rw (differ, position-append before t behind others) refl
]

-- The token once it is paged in.
abbrev pub present : ForkToken → ForkToken
present t = record t { state = paged_in; access_count = add64 t.access_count 1 }

module _ (p : UpipPager) (i : ℕ) (t : ForkToken)
    (found : position t.id p.tokens ≡ some (i, t)) where
  -- A page-in of a token that is out, with the seal that belongs to it.
  pub page_in_sealed :
      t.state ≡ paged_out
      → t.ed25519_seal ≡ seal_of t.content_hash t.compressed_hash t.intent t.bus_seq
      → page_in p t.id ≡ (
        record p {
          tokens = set p.tokens i (present t);
          pages_in = add64 p.pages_in 1;
          bytes_paged_in = add64 p.bytes_paged_in t.raw_size;
        },
        page_in_success t.id t.raw_size t.memory_offset,
      )
  unfolding page_in page_in_at
  page_in_sealed out seal =
      let not_consumed : is_consumed t.state ≡ false = ap is_consumed out in
      let valid =
        (eq_iff t.ed25519_seal (seal_of t.content_hash t.compressed_hash t.intent t.bus_seq)).1
          seal in
      rw (page_in, found, page_in_at, not_consumed, valid) refl

  pub consume_found :
      (consume p t.id).0 ≡ record p { tokens = set p.tokens i (record t { state = consumed }) }
  unfolding consume
  consume_found = rw (consume, found) refl
