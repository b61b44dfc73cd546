-- ===== src/Core/Resolution/Outcomes.antt =====
-- What `resolve_resource` of crates/robot-hal-core/src/identity.rs answers, by the descriptors that
-- suit a selector and a capability.
use robot_hal.Prelude.{
  ◌≤◌, ◌≡◌, ◌↔◌, ◌⊎◌, inl, inr, refl, String, true, false, List, [], ◌∷◌, arith, length, keep,
  ==_iff, Bool-cases,
}
use robot_hal.Core.Names.{
  resource_id_eq, capability_id_eq, transport_kind_eq, CapabilityId, IdentityQuality, medium,
  strong, weak,
}
use robot_hal.Core.Error.{err, ok}
use robot_hal.Core.Resolution.{
  CapabilitySet, ResourceDescriptor, ResourceSelector, ambiguous_error, has_capability, is_match,
  missing_error, resolve_resource, satisfies, settle,
}

-- A quality is at least the one that is asked for: strong, medium and weak, in this order.
abbrev AtLeast : IdentityQuality → IdentityQuality → Type 0
AtLeast weak quality = Unit {0}
AtLeast medium quality = (quality ≡ medium) ⊎ (quality ≡ strong)
AtLeast strong quality = quality ≡ strong

abbrev Has : CapabilityId → List CapabilityId → Type 0
Has capability [] = ⊥
Has capability (c ∷ cs) = (c ≡ capability) ⊎ Has capability cs

-- The descriptor is what the selector and the capability ask for.
pub record Suits (s : ResourceSelector) (capability : CapabilityId) (d : ResourceDescriptor)
    : Type 0 where
  pub same_id : d.id ≡ s.id
  pub same_transport : d.transport ≡ s.transport
  pub sure : AtLeast s.minimum_identity_quality d.minimum_identity_quality
  pub able : Has capability d.capabilities

AtLeast-iff : (q m : IdentityQuality) → (satisfies q m ≡ true) ↔ AtLeast m q
AtLeast-iff weak weak = ground arith
AtLeast-iff medium weak = ground arith
AtLeast-iff strong weak = ground arith
AtLeast-iff weak medium = ground arith
AtLeast-iff medium medium = ground arith
AtLeast-iff strong medium = ground arith
AtLeast-iff weak strong = ground arith
AtLeast-iff medium strong = ground arith
AtLeast-iff strong strong = ground arith

Has-iff :
    (capability : CapabilityId) (set : CapabilitySet)
    → (has_capability set capability ≡ true) ↔ Has capability set
unfolding has_capability
Has-iff capability [] = ground arith
Has-iff capability (c ∷ cs) = ground (arith, ==_iff c capability, Has-iff capability cs)

compose {ℓ κ μ} : {A : Type ℓ} {B : Type κ} {C : Type μ} → (A ↔ B) → (B ↔ C) → (A ↔ C)
compose f g = (λ a. g.0 (f.0 a), λ c. f.1 (g.1 c))

module _ (s : ResourceSelector) (capability : CapabilityId) where
  Suits-iff : (d : ResourceDescriptor) → (is_match s capability d ≡ true) ↔ Suits s capability d
  unfolding is_match
  Suits-iff d =
      let id = ==_iff d.id s.id in
      let transport = ==_iff d.transport s.transport in
      let quality = AtLeast-iff d.minimum_identity_quality s.minimum_identity_quality in
      let able = Has-iff capability d.capabilities in
      (
        λ h. record {
          same_id = id.0 (ground (arith, h));
          same_transport = transport.0 (ground (arith, h));
          sure = quality.0 (ground (arith, h));
          able = able.0 (ground (arith, h));
        },
        λ u.
            ground (
              arith,
              id.1 u.same_id,
              transport.1 u.same_transport,
              quality.1 u.sure,
              able.1 u.able,
            ),
      )

  -- Which descriptors of an enumeration suit: none, one and just that one, one at least, two at least.
  abbrev pub NoneSuits : List ResourceDescriptor → Type 0
  NoneSuits [] = Unit {0}
  NoneSuits (d ∷ ds) = ¬ Suits s capability d × NoneSuits ds

  abbrev pub OnlySuits : ResourceDescriptor → List ResourceDescriptor → Type 0
  OnlySuits d [] = ⊥
  OnlySuits d (x ∷ ds) =
      ((x ≡ d) × Suits s capability x × NoneSuits ds) ⊎ (¬ Suits s capability x × OnlySuits d ds)

  abbrev SomeSuits : List ResourceDescriptor → Type 0
  SomeSuits [] = ⊥
  SomeSuits (d ∷ ds) = Suits s capability d ⊎ SomeSuits ds

  abbrev pub TwoSuit : List ResourceDescriptor → Type 0
  TwoSuit [] = ⊥
  TwoSuit (d ∷ ds) = (Suits s capability d × SomeSuits ds) ⊎ TwoSuit ds

  unsuited : (d : ResourceDescriptor) → is_match s capability d ≡ false → ¬ Suits s capability d
  unsuited d f u = ground (arith, f, (Suits-iff d).1 u)

  keep-NoneSuits :
      (ds : List ResourceDescriptor) → (keep (is_match s capability) ds ≡ []) ↔ NoneSuits ds
  keep-NoneSuits [] = (λ h. tt, λ h. refl)
  keep-NoneSuits (x ∷ ds) = elim (Bool-cases (is_match s capability x)) [
    | inl t ↦
        (λ h. absurd (ground (arith, t, h)), λ (differs, r). absurd (differs ((Suits-iff x).0 t)))
    | inr f ↦ (
      λ h. (unsuited x f, (keep-NoneSuits ds).0 (ground (arith, f, h))),
      λ (differs, r). ground (arith, f, (keep-NoneSuits ds).1 r),
    )
  ]

  keep-OnlySuits :
      (d : ResourceDescriptor) (ds : List ResourceDescriptor)
      → (keep (is_match s capability) ds ≡ d ∷ []) ↔ OnlySuits d ds
  keep-OnlySuits d [] = (λ h. ground (arith, h), λ h. absurd h)
  keep-OnlySuits d (x ∷ ds) = elim (Bool-cases (is_match s capability x)) [
    | inl t ↦ (
      λ h.
          inl
            (ground (arith, t, h), (Suits-iff x).0 t, (keep-NoneSuits ds).0 (ground (arith, t, h))),
      λ h. elim h [
        | inl (e, u, r) ↦ ground (arith, t, e, (keep-NoneSuits ds).1 r)
        | inr (differs, r) ↦ absurd (differs ((Suits-iff x).0 t))
      ],
    )
    | inr f ↦ (
      λ h. inr (unsuited x f, (keep-OnlySuits d ds).0 (ground (arith, f, h))),
      λ h. elim h [
        | inl (e, u, r) ↦ absurd (unsuited x f u)
        | inr (differs, r) ↦ ground (arith, f, (keep-OnlySuits d ds).1 r)
      ],
    )
  ]

  keep-SomeSuits :
      (ds : List ResourceDescriptor) → (1 ≤ length (keep (is_match s capability) ds)) ↔ SomeSuits ds
  keep-SomeSuits [] = (λ h. absurd (omega (arith, h)), λ h. absurd h)
  keep-SomeSuits (x ∷ ds) = elim (Bool-cases (is_match s capability x)) [
    | inl t ↦ (λ h. inl ((Suits-iff x).0 t), λ h. ground (arith, t))
    | inr f ↦ (
      λ h. inr ((keep-SomeSuits ds).0 (ground (arith, f, h))),
      λ h. elim h [
        | inl u ↦ absurd (unsuited x f u)
        | inr r ↦ ground (arith, f, (keep-SomeSuits ds).1 r)
      ],
    )
  ]

  keep-TwoSuit :
      (ds : List ResourceDescriptor) → (2 ≤ length (keep (is_match s capability) ds)) ↔ TwoSuit ds
  keep-TwoSuit [] = (λ h. absurd (omega (arith, h)), λ h. absurd h)
  keep-TwoSuit (x ∷ ds) = elim (Bool-cases (is_match s capability x)) [
    | inl t ↦ (
      λ h. inl ((Suits-iff x).0 t, (keep-SomeSuits ds).0 (ground (arith, t, h))),
      λ h. elim h [
        | inl (u, r) ↦ ground (arith, t, (keep-SomeSuits ds).1 r)
        | inr r ↦ ground (arith, t, (keep-TwoSuit ds).1 r)
      ],
    )
    | inr f ↦ (
      λ h. inr ((keep-TwoSuit ds).0 (ground (arith, f, h))),
      λ h. elim h [
        | inl (u, r) ↦ absurd (unsuited x f u)
        | inr r ↦ ground (arith, f, (keep-TwoSuit ds).1 r)
      ],
    )
  ]

  -- What the number of the matches makes of the answer.
  settle_ok :
      (operation : String) (d : ResourceDescriptor) (ds : List ResourceDescriptor)
      → (settle s operation ds ≡ ok d) ↔ (ds ≡ d ∷ [])
  settle_ok operation d [] = ground arith
  settle_ok operation d (x ∷ []) = ground arith
  settle_ok operation d (x ∷ y ∷ ds) = ground arith

  settle_not_found :
      (operation : String) (ds : List ResourceDescriptor)
      → (settle s operation ds ≡ err (missing_error s operation)) ↔ (ds ≡ [])
  settle_not_found operation [] = ground arith
  settle_not_found operation (d ∷ []) = ground arith
  settle_not_found operation (d ∷ e ∷ ds) = ground arith

  settle_ambiguous :
      (operation : String) (ds : List ResourceDescriptor)
      → (settle s operation ds ≡ err (ambiguous_error s operation)) ↔ (2 ≤ length ds)
  settle_ambiguous operation [] = ground arith
  settle_ambiguous operation (d ∷ []) = ground arith
  settle_ambiguous operation (d ∷ e ∷ ds) = ground arith

  -- A descriptor suits when it has the selector's identity and transport, at least its quality of
  -- identity, and the capability among its own. `resolve_resource` returns a descriptor exactly when
  -- it is the only one of the enumeration that suits, wherever it stands; it answers
  -- `runtime.resource.not_found` exactly when none suits, and `runtime.resource.ambiguous` exactly
  -- when two or more suit.
  pub resolve_resource_cases :
      (ds : List ResourceDescriptor) (d : ResourceDescriptor) (operation : String)
      → ((resolve_resource ds s capability operation ≡ ok d) ↔ OnlySuits d ds)
        × ((resolve_resource ds s capability operation ≡ err (missing_error s operation))
            ↔ NoneSuits ds)
        × ((resolve_resource ds s capability operation ≡ err (ambiguous_error s operation))
            ↔ TwoSuit ds)
  unfolding resolve_resource
  resolve_resource_cases ds d operation =
      let matches = keep (is_match s capability) ds in
      (
        compose (settle_ok operation d matches) (keep-OnlySuits d ds),
        compose (settle_not_found operation matches) (keep-NoneSuits ds),
        compose (settle_ambiguous operation matches) (keep-TwoSuit ds),
      )
