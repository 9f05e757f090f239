-- ===== src/Cluster/Refinement.antt =====
-- The client over its server against the map of Cluster/Spec (crates/trust-kernel/src/cluster_mux.rs).
use spaceshuttle.Prelude.{
  ℕ, ◌≡◌, refl, sym, subst, ap, ◌∙◌, List, [], ◌∷◌, Option, none, some, some-injective, String,
  Bool, true, false, inl, inr, Bool-cases, Option-cases, ◌==◌, ==_iff, if◌then◌else◌, str_eq,
  eq_iff,
}
use spaceshuttle.Cluster.BlockStore
use spaceshuttle.Cluster.BlockStore.{StoredBlock, lookup, lookup-insert, insert, served}
use spaceshuttle.Cluster.Frames.{Answer, answered, refused, remote_status}
use spaceshuttle.Cluster.Server.{ClusterMuxServer}
use spaceshuttle.Cluster.Client.{Link, ping, fetch_block, store_block}
use spaceshuttle.Cluster.Requests.{
  IsIdle, Reaches, counted, serving, ping-Reaches, fetch_missing, fetch_found,
}
use spaceshuttle.Cluster.Stores.{storing, store_good, store_bad}
use spaceshuttle.Cluster.Spec.{
  BlockMap, Op, ping_op, fetch_op, store_op, update, found, promise, perform, run, no_value,
  content, view,
}

abbrev Entries : Type 0
Entries = List (ℕ × StoredBlock)

abbrev contents : Entries → BlockMap
contents entries wanted = content (lookup wanted entries)

contents-insert :
    (block_index : ℕ) (b : StoredBlock) (entries : Entries)
    → contents (insert block_index b entries) ≡ update (contents entries) block_index b.data_bytes
contents-insert block_index b entries = λ i wanted.
    (ap content (lookup-insert block_index wanted b entries)
        ∙ content_if (block_index == wanted) (lookup wanted entries))
      i
  where
    content_if :
        (c : Bool) (old : Option StoredBlock)
        → content (if c then some b else old) ≡ (if c then some b.data_bytes else content old)
    content_if true old = refl
    content_if false old = refl

-- Writing what is there already.
update_same :
    (blocks : BlockMap) (block_index : ℕ) (block : List ℕ)
    → blocks block_index ≡ some block
    → update blocks block_index block ≡ blocks
update_same blocks block_index block e = λ i wanted. same wanted i
  where
    same : (wanted : ℕ) → update blocks block_index block wanted ≡ blocks wanted
    same wanted = elim (Bool-cases (block_index == wanted)) [
      | inl h ↦ rw h (sym e ∙ ap blocks ((==_iff block_index wanted).0 h))
      | inr h ↦ rw h refl
    ]

module _ (sha256_hex : List ℕ → String) where
  -- Every block is stored under the hash of its bytes.
  abbrev IsHashed : Entries → Type 0
  IsHashed entries =
      (block_index : ℕ) (b : StoredBlock)
      → lookup block_index entries ≡ some b
      → b.content_hash ≡ sha256_hex b.data_bytes

  -- The server holds blocks under their hashes, and the client has read all responses.
  abbrev pub IsCoherent : Link → Type 0
  IsCoherent l = IsHashed l.server.store.blocks × IsIdle l.client.connection

  insert-IsHashed :
      (block_index : ℕ) (b : StoredBlock) (entries : Entries)
      → IsHashed entries
      → b.content_hash ≡ sha256_hex b.data_bytes
      → IsHashed (insert block_index b entries)
  insert-IsHashed block_index b entries hashed good wanted found_block e =
      elim (Bool-cases (block_index == wanted)) [
        | inl h ↦
            let at_key : lookup wanted (insert block_index b entries) ≡ some b =
              lookup-insert block_index wanted b entries ∙ rw h refl in
            subst (λ x. x.content_hash ≡ sha256_hex x.data_bytes)
              (some-injective _ _ (sym at_key ∙ e)) good
        | inr h ↦
            let elsewhere : lookup wanted (insert block_index b entries) ≡ lookup wanted entries =
              lookup-insert block_index wanted b entries ∙ rw h refl in
            hashed wanted found_block (sym elsewhere ∙ e)
      ]

  -- A call that reaches a server keeps its promise if the blocks of that server do.
  abbrev Keeps : Link × Answer (List ℕ) → BlockMap × Answer (List ℕ) → Type 0
  Keeps r promised = IsCoherent r.0 × (view r.0 ≡ promised.0) × (r.1 ≡ promised.1)

  Reaches-Keeps :
      (r : Link × Answer (List ℕ)) (server : ClusterMuxServer)
      (promised : BlockMap × Answer (List ℕ))
      → Reaches sha256_hex r server promised.1
      → IsHashed server.store.blocks
      → contents server.store.blocks ≡ promised.0
      → Keeps r promised
  unfolding view
  Reaches-Keeps r server promised (idle, same, answer) hashed shown = (
    (subst (λ s. IsHashed s.store.blocks) (sym same) hashed, idle),
    ap (λ s. contents s.store.blocks) same ∙ shown,
    answer,
  )

  -- The same for an operation without a value.
  no_value-Keeps :
      (r : Link × Answer (Unit {0})) (server : ClusterMuxServer) (answer : Answer (Unit {0}))
      (blocks : BlockMap)
      → Reaches sha256_hex r server answer
      → IsHashed server.store.blocks
      → contents server.store.blocks ≡ blocks
      → Keeps (r.0, no_value r.1) (blocks, no_value answer)
  no_value-Keeps r server answer blocks (idle, same, e) =
      Reaches-Keeps (r.0, no_value r.1) server (blocks, no_value answer) (idle, same, ap no_value e)

  module _ (l : Link) (hashed : IsHashed l.server.store.blocks)
      (idle : IsIdle l.client.connection) where
    fetch_block-Keeps :
        (block_index : ℕ) (expected : Option String) (bus_seq : ℕ)
        → Keeps
            (fetch_block sha256_hex l none block_index expected bus_seq)
            (promise sha256_hex (view l) (fetch_op block_index expected bus_seq))
    unfolding promise view
    fetch_block-Keeps block_index expected bus_seq =
        let blocks = l.server.store.blocks in
        let call = fetch_block sha256_hex l none block_index expected bus_seq in
        elim (Option-cases (lookup block_index blocks)) [
          | inl gone ↦ rw gone (
              Reaches-Keeps call (counted sha256_hex l)
                (contents blocks, found sha256_hex block_index expected none)
                (fetch_missing sha256_hex l block_index expected bus_seq idle gone) hashed refl)
          | inr (b, is_there) ↦
              let good = hashed block_index b is_there in
              rw is_there (
                Reaches-Keeps call (serving sha256_hex l block_index expected bus_seq idle b)
                  (contents blocks, found sha256_hex block_index expected (some b.data_bytes))
                  (fetch_found sha256_hex l block_index expected bus_seq idle b is_there good)
                  (insert-IsHashed block_index (served b) blocks hashed good)
                  (contents-insert block_index (served b) blocks
                    ∙ update_same (contents blocks) block_index b.data_bytes (ap content is_there)))
        ]

    store_block-Keeps :
        (block_index : ℕ) (block : List ℕ) (content_hash seal : String) (raw_size bus_seq : ℕ)
        → let r =
            store_block sha256_hex l none block_index block content_hash seal raw_size bus_seq in
          Keeps
            (r.0, no_value r.1)
            (promise sha256_hex
              (view l)
              (store_op block_index block content_hash seal raw_size bus_seq))
    unfolding promise view BlockStore.store
    store_block-Keeps block_index block content_hash seal raw_size bus_seq =
        let blocks = l.server.store.blocks in
        let call =
          store_block sha256_hex l none block_index block content_hash seal raw_size bus_seq in
        elim (Bool-cases (str_eq (sha256_hex block) content_hash)) [
          | inl good ↦ rw good (
              no_value-Keeps call
                (storing sha256_hex l block_index block content_hash seal raw_size bus_seq idle)
                (answered tt) (update (contents blocks) block_index block)
                (store_good sha256_hex l block_index block content_hash seal raw_size bus_seq idle
                  good)
                (insert-IsHashed block_index _ blocks hashed (sym ((eq_iff _ _).0 good)))
                (contents-insert block_index _ blocks))
          | inr bad ↦ rw bad (
              no_value-Keeps call (counted sha256_hex l)
                (refused (remote_status 409 "Store hash mismatch")) (contents blocks)
                (store_bad sha256_hex l block_index block content_hash seal raw_size bus_seq idle
                  bad)
                hashed refl)
        ]

  perform-Keeps :
      (l : Link) (op : Op)
      → IsCoherent l
      → Keeps (perform sha256_hex l op) (promise sha256_hex (view l) op)
  unfolding perform promise view
  perform-Keeps l ping_op (hashed, idle) =
      no_value-Keeps (ping sha256_hex l none) (counted sha256_hex l) (answered tt)
        (contents l.server.store.blocks) (ping-Reaches sha256_hex l idle) hashed refl
  perform-Keeps l (fetch_op block_index expected bus_seq) (hashed, idle) =
      fetch_block-Keeps l hashed idle block_index expected bus_seq
  perform-Keeps l (store_op block_index block content_hash seal raw_size bus_seq) (hashed, idle) =
      store_block-Keeps l hashed idle block_index block content_hash seal raw_size bus_seq

  -- The answers are those of the map, and the link ends coherent, standing for the map's end.
  abbrev pub Refines : Link → List Op → Type 0
  Refines l ops =
      let (end, answers) = run (perform sha256_hex) l ops in
      let (blocks, promised) = run (promise sha256_hex) (view l) ops in
      IsCoherent end × (view end ≡ blocks) × (answers ≡ promised)

  -- On a coherent link, where the server holds every block under the hash of its bytes, the client
  -- has no response unread and connecting succeeds: whatever pings, fetches and stores the client
  -- makes, each is answered as a map from indices to bytes answers it (the bytes, not found, or a
  -- hash mismatch), the server stands for that map at the end, and the link is coherent again.
  pub run-Refines : (ops : List Op) (l : Link) → IsCoherent l → Refines l ops
  unfolding run
  run-Refines [] l coherent = (coherent, refl, refl)
  run-Refines (op ∷ ops) l coherent =
      let (coherent', shown, answer) = perform-Keeps l op coherent in
      let (coherent'', end, answers) = run-Refines ops (perform sha256_hex l op).0 coherent' in
      (
        coherent'',
        end ∙ ap (λ blocks. (run (promise sha256_hex) blocks ops).0) shown,
        λ i. answer i ∷ (answers ∙ ap (λ blocks. (run (promise sha256_hex) blocks ops).1) shown) i,
      )
