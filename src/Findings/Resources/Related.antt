-- ===== src/Findings/Resources/Related.antt =====
-- `build_related_resources` gives the neighbours of a resource, each once.
use mathlib.Core.Path.{subst}
use compliance_engine.Common.{
  String, Bool, true, false, ◌≡◌, refl, sym, List, [], ◌∷◌, map, any, Option, All, ◌⊎◌, inl, inr,
  Bool-cases, str_eq, eq_iff, ◌||◌, Has,
}
use compliance_engine.Common.Keyed.{Unseen, DistinctBy, DistinctBy-cons, or_false}
use compliance_engine.Json.{Json}
use compliance_engine.Scans.Rows.{Relationship, Resource}
use compliance_engine.Findings.Resources.{
  RelatedResource, collect_related, build_related_resources, related_item, peer_of, is_skipped,
}

abbrev key : RelatedResource → String
key r = r.resource_id

abbrev pub ids : List RelatedResource → List String
ids = map (λ (r : RelatedResource). r.resource_id)

module _ (resource_id : String) where
  -- A peer is left out, was seen, or is in the list.
  abbrev Met : List String → List RelatedResource → Relationship → Type 0
  Met seen out rel =
      (is_skipped resource_id (peer_of resource_id rel) ≡ true)
      ⊎ ((any (str_eq (peer_of resource_id rel)) seen ≡ true)
          ⊎ Has (peer_of resource_id rel) (ids out))

  Met-cons :
      (item : RelatedResource) (seen : List String) (out : List RelatedResource)
      (rel : Relationship)
      → Met (item.resource_id ∷ seen) out rel
      → Met seen (item ∷ out) rel
  Met-cons item seen out rel (inl skipped) = inl skipped
  Met-cons item seen out rel (inr (inr m)) = inr (inr (inr m))
  Met-cons item seen out rel (inr (inl e)) =
      by_head (Bool-cases (str_eq (peer_of resource_id rel) item.resource_id))
    where
      by_head :
          (str_eq (peer_of resource_id rel) item.resource_id ≡ true)
            ⊎ (str_eq (peer_of resource_id rel) item.resource_id ≡ false)
          → Met seen (item ∷ out) rel
      by_head (inl same) =
          inr (inr (inl (sym ((eq_iff (peer_of resource_id rel) item.resource_id).0 same))))
      by_head (inr other) = inr (inl (rw other at e))

  All-Met-cons :
      (item : RelatedResource) (seen : List String) (out : List RelatedResource)
      (rels : List Relationship)
      → All (Met (item.resource_id ∷ seen) out) rels
      → All (Met seen (item ∷ out)) rels
  All-Met-cons item seen out [] h = tt
  All-Met-cons item seen out (rel ∷ rels) (h, hs) =
      (Met-cons item seen out rel h, All-Met-cons item seen out rels hs)

  module _ (show : Json → String) (assets_by_id : String → Option Resource) where
    abbrev Collected : List String → List Relationship → List RelatedResource → Type 0
    Collected seen rels out =
        (Unseen (λ (r : RelatedResource). r.resource_id) seen out
          × DistinctBy (λ (r : RelatedResource). r.resource_id) out)
        × All (λ (r : RelatedResource). is_skipped resource_id r.resource_id ≡ false) out
        × All (Met seen out) rels

    Collected-skip :
        (seen : List String) (rel : Relationship) (rels : List Relationship)
        (out : List RelatedResource)
        → (is_skipped resource_id (peer_of resource_id rel)
            || any (str_eq (peer_of resource_id rel)) seen)
          ≡ true
        → Collected seen rels out
        → Collected seen (rel ∷ rels) out
    Collected-skip seen rel rels out h (d, u, m) = (d, u, (or_true _ _ h, m))
      where
        or_true :
            (a b : Bool)
            → (a || b) ≡ true
            → (a ≡ true) ⊎ ((b ≡ true) ⊎ Has (peer_of resource_id rel) (ids out))
        or_true true b h = inl refl
        or_true false b h = inr (inl h)

    collect_nil :
        (seen : List String)
        → Collected seen [] (collect_related show resource_id assets_by_id seen [])
    unfolding collect_related
    collect_nil seen = ((tt, tt), tt, tt)

    abbrev left_out : List String → Relationship → Bool
    left_out seen rel =
        is_skipped resource_id (peer_of resource_id rel)
        || any (str_eq (peer_of resource_id rel)) seen

    collect_skip :
        (seen : List String) (rel : Relationship) (rels : List Relationship)
        → left_out seen rel ≡ true
        → collect_related show resource_id assets_by_id seen rels
          ≡ collect_related show resource_id assets_by_id seen (rel ∷ rels)
    unfolding collect_related
    collect_skip seen rel rels h = rw h

    collect_add :
        (seen : List String) (rel : Relationship) (rels : List Relationship)
        → left_out seen rel ≡ false
        → related_item show resource_id assets_by_id (peer_of resource_id rel) rel
            ∷ collect_related show resource_id assets_by_id (peer_of resource_id rel ∷ seen) rels
          ≡ collect_related show resource_id assets_by_id seen (rel ∷ rels)
    unfolding collect_related
    collect_add seen rel rels h = rw h

    Collected-add :
        (seen : List String) (rel : Relationship) (rels : List Relationship)
        (out : List RelatedResource)
        → left_out seen rel ≡ false
        → Collected (peer_of resource_id rel ∷ seen) rels out
        → Collected seen
            (rel ∷ rels)
            (related_item show resource_id assets_by_id (peer_of resource_id rel) rel ∷ out)
    Collected-add seen rel rels out h (d, u, m) =
        let (used, new) = or_false _ _ h in
        let item = related_item show resource_id assets_by_id (peer_of resource_id rel) rel in
        (
          DistinctBy-cons (λ (r : RelatedResource). r.resource_id) item seen out new d,
          (used, u),
          (inr (inr (inl refl)), All-Met-cons item seen out rels m),
        )

    collect_related-Collected :
        (seen : List String) (rels : List Relationship)
        → Collected seen rels (collect_related show resource_id assets_by_id seen rels)
    collect_related-Collected seen [] = collect_nil seen
    collect_related-Collected seen (rel ∷ rels) = elim (Bool-cases (left_out seen rel)) [
      | inl skip ↦
          subst (Collected seen (rel ∷ rels)) (collect_skip seen rel rels skip)
            (Collected-skip seen rel rels _ skip (collect_related-Collected seen rels))
      | inr used ↦ subst (Collected seen (rel ∷ rels)) (collect_add seen rel rels used) (
          Collected-add seen rel rels _ used
            (collect_related-Collected (peer_of resource_id rel ∷ seen) rels))
    ]

    -- Whether the list has the peer of a relationship, or leaves it out as empty or as the resource.
    abbrev pub IsListed : List RelatedResource → Relationship → Type 0
    IsListed out rel =
        (is_skipped resource_id (peer_of resource_id rel) ≡ true)
        ⊎ Has (peer_of resource_id rel) (ids out)

    All-IsListed :
        (out : List RelatedResource) (rels : List Relationship)
        → All (Met [] out) rels
        → All (IsListed out) rels
    All-IsListed out [] h = tt
    All-IsListed out (rel ∷ rels) (inl skipped, hs) = (inl skipped, All-IsListed out rels hs)
    All-IsListed out (rel ∷ rels) (inr (inl e), hs) = cc
    All-IsListed out (rel ∷ rels) (inr (inr m), hs) = (inr m, All-IsListed out rels hs)

    abbrev pub peers : List Relationship → List String
    peers = map (peer_of resource_id)

    abbrev pub ArePeers : List Relationship → List RelatedResource → Type 0
    ArePeers rels = All (λ (r : RelatedResource). Has r.resource_id (peers rels))

    ArePeers-cons :
        (rel : Relationship) (rels : List Relationship) (out : List RelatedResource)
        → ArePeers rels out
        → ArePeers (rel ∷ rels) out
    ArePeers-cons rel rels [] h = tt
    ArePeers-cons rel rels (r ∷ out) (h, hs) = (inr h, ArePeers-cons rel rels out hs)

    collect_none :
        (seen : List String) → ArePeers [] (collect_related show resource_id assets_by_id seen [])
    unfolding collect_related
    collect_none seen = tt

    collect_related-ArePeers :
        (seen : List String) (rels : List Relationship)
        → ArePeers rels (collect_related show resource_id assets_by_id seen rels)
    collect_related-ArePeers seen [] = collect_none seen
    collect_related-ArePeers seen (rel ∷ rels) = elim (Bool-cases (left_out seen rel)) [
      | inl skip ↦
          subst (ArePeers (rel ∷ rels)) (collect_skip seen rel rels skip)
            (ArePeers-cons rel rels _ (collect_related-ArePeers seen rels))
      | inr used ↦ subst (ArePeers (rel ∷ rels)) (collect_add seen rel rels used) (
        inl refl,
        ArePeers-cons rel rels _ (collect_related-ArePeers (peer_of resource_id rel ∷ seen) rels),
      )
    ]

    -- The related resources of a resource are the set of its peers: no two entries have
    -- one identifier, none is empty or the resource itself, each is the peer of a
    -- relationship, and the peer of each relationship is listed unless it is empty or the
    -- resource itself.
    pub build_related_resources-Distinct :
        (rels : List Relationship)
        → let out = build_related_resources show resource_id assets_by_id rels in
          DistinctBy (λ (r : RelatedResource). r.resource_id) out
          × All (λ (r : RelatedResource). is_skipped resource_id r.resource_id ≡ false) out
          × ArePeers rels out
          × All (IsListed out) rels
    unfolding build_related_resources
    build_related_resources-Distinct rels =
        let (d, u, m) = collect_related-Collected [] rels in
        (
          d.1,
          u,
          collect_related-ArePeers [] rels,
          All-IsListed (collect_related show resource_id assets_by_id [] rels) rels m,
        )
