-- ===== src/Enrichment/Chain.antt =====
-- The chain that `ResolveOwnerChain` of pkg/enrichment/ownerchain.go returns.
use mcp_k8s.Enrichment.{fetch_error}
use mcp_k8s.Base.{
  ℕ, zero, suc, ◌≤◌, String, ◌≡◌, refl, sym, ap, subst, ◌∙◌, Option, none, some, List, [], ◌∷◌,
  ◌++◌, arith, num_keys, text_keys, length,
}
use mathlib.Core.List.{append_assoc, append-nil}
use mcp_k8s.Base.Result.{Result, ok, err}
use mcp_k8s.Event.{OwnerRef}
use mcp_k8s.Enrichment.{
  OwnerReference, Metadata, Client, max_chain_depth, get_owner_refs, next_owner, Walk, resolve_from,
  resolve_owner_chain,
}

-- A chain of owners from an object: each entry is an object that was read, the next entry is the
-- owner that is followed from it. The walk ends at an object with no owner, at a failed read, or
-- when `depth` objects have been read.
pub data IsChain (c : Client) (namespace : String)
    : ℕ → String → String → List OwnerRef → Option String → Type 0 where
  at_depth : {kind name : String} → IsChain c namespace zero kind name [] none
  failed :
      {depth : ℕ} {kind name : String} (why : String)
      → get_owner_refs c namespace kind name ≡ err why
      → IsChain c namespace (suc depth) kind name [] (some (fetch_error kind name why))
  at_root :
      {depth : ℕ} {kind name : String} (m : Metadata)
      → get_owner_refs c namespace kind name ≡ ok m
      → m.owner_references ≡ []
      → IsChain c namespace
          (suc depth)
          kind
          name
          (record { kind = kind; name = name; uid = m.uid } ∷ [])
          none
  owned :
      {depth : ℕ} {kind name : String} {chain : List OwnerRef} {e : Option String} (m : Metadata)
      (next : OwnerReference)
      → get_owner_refs c namespace kind name ≡ ok m
      → next_owner m.owner_references ≡ some next
      → IsChain c namespace depth next.kind next.name chain e
      → IsChain c namespace
          (suc depth)
          kind
          name
          (record { kind = kind; name = name; uid = m.uid } ∷ chain)
          e

next_owner-none : (owners : List OwnerReference) → next_owner owners ≡ none → owners ≡ []
unfolding next_owner
next_owner-none [] h = refl
next_owner-none (o ∷ owners) h = absurd (ground arith)

-- That a walk with some rounds left adds a chain of owners to the chain before it.
abbrev Walks : Client → String → ℕ → List OwnerRef → String → String → Type 0
Walks c namespace rounds before kind name =
    (chain : List OwnerRef) × (e : Option String) × (resolve_from c namespace rounds before kind
        name
      ≡ (before ++ chain, e))
    × IsChain c namespace rounds kind name chain e

module _ (c : Client) (namespace : String) (rounds : ℕ) (before : List OwnerRef)
    (kind name : String)
    (rest : (b : List OwnerRef) (k n : String) → Walks c namespace rounds b k n) where
  walk_owner :
      (m : Metadata)
      → get_owner_refs c namespace kind name ≡ ok m
      → (o : Option OwnerReference) → next_owner m.owner_references ≡ o
      → Walks c namespace (suc rounds) before kind name
  unfolding resolve_from
  walk_owner m read none last = (
    record { kind = kind; name = name; uid = m.uid } ∷ [],
    none,
    rw (read, resolve_from, last),
    at_root m read (next_owner-none m.owner_references last),
  )
  walk_owner m read (some next) owner =
      let here : OwnerRef = record { kind = kind; name = name; uid = m.uid } in
      let (chain, e, same, h) = rest (before ++ here ∷ []) next.kind next.name in
      (
        here ∷ chain,
        e,
        rw (read, resolve_from, owner)
            (same ∙ ap (λ l. (l, e)) (append_assoc before (here ∷ []) chain)),
        owned m next read owner h,
      )

  walk_object :
      (r : Result Metadata)
      → get_owner_refs c namespace kind name ≡ r
      → Walks c namespace (suc rounds) before kind name
  unfolding resolve_from
  walk_object (err why) read = (
    [],
    some (fetch_error kind name why),
    rw (read, resolve_from)
        (ap (λ l. (l, some (fetch_error kind name why))) (sym (append-nil before))),
    failed why read,
  )
  walk_object (ok m) read = walk_owner m read (next_owner m.owner_references) refl

-- The walk adds to the chain so far the chain from the object at hand.
resolve_from-IsChain :
    (c : Client) (namespace : String) (rounds : ℕ) (before : List OwnerRef) (kind name : String)
    → Walks c namespace rounds before kind name
unfolding resolve_from
resolve_from-IsChain c namespace zero before kind name =
    ([], none, ap (λ l. (l, none)) (sym (append-nil before)), at_depth)
resolve_from-IsChain c namespace (suc rounds) before kind name =
    walk_object c namespace rounds before kind name
      (λ b k n. resolve_from-IsChain c namespace rounds b k n)
      (get_owner_refs c namespace kind name) refl

IsChain-length :
    {c : Client} {namespace : String} {depth : ℕ} {kind name : String} {chain : List OwnerRef}
    {e : Option String}
    → IsChain c namespace depth kind name chain e
    → length chain ≤ depth
IsChain-length at_depth = omega arith
IsChain-length (failed why h) = omega arith
IsChain-length (at_root m read last) = omega arith
IsChain-length (owned m next read owner rest) = omega (arith, IsChain-length rest)

-- The result is a chain of owners of the object, with the error of the read that ended it if one
-- did, and it has at most ten entries.
pub resolve_owner_chain-IsChain :
    (c : Client) (namespace kind name : String)
    → let (chain, e) = resolve_owner_chain c namespace kind name in
      IsChain c namespace max_chain_depth kind name chain e × (length chain ≤ max_chain_depth)
unfolding resolve_owner_chain
resolve_owner_chain-IsChain c namespace kind name =
    let (chain, e, same, h) = resolve_from-IsChain c namespace max_chain_depth [] kind name in
    subst
      (λ (w : Walk).
        IsChain c namespace max_chain_depth kind name w.0 w.1 × (length w.0 ≤ max_chain_depth))
      (sym same) (h, IsChain-length h)
