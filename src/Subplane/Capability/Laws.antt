-- ===== src/Subplane/Capability/Laws.antt =====
-- What internal/subplane/capability.go promises of the matrix and of the split by it.
use Prim.Native.String.{String}
use mathlib.Core.Path.{subst}
use lumi_panel.Base.{
  ◌≡◌, ◌≢◌, ◌⊎◌, inl, inr, ◌↔◌, refl, arith, true, false, Bool-cases, Option-cases, Option, none,
  some, List, [], ◌∷◌, pos, ◌<ℤ◌, ◌≤ℤ◌, pos_part, neg_part, eq_of_parts, All,
}
use lumi_panel.Subplane.Client.{
  Profile, unknown_profile, Version, zero_version, Client, is_zero, less, at_least,
}
use lumi_panel.Subplane.Capability.{
  Protocol, lumi, unknown_protocol, Rule, supported, no, matrix, supports, filter_protocols,
}

-- A version comes no later than another: by the major, then the minor, then the patch number.
abbrev pub IsNoLater : Version → Version → Type 0
IsNoLater v w =
    (v.major <ℤ w.major)
    ⊎ ((v.major ≡ w.major) × ((v.minor <ℤ w.minor) ⊎ ((v.minor ≡ w.minor) × (v.patch ≤ℤ w.patch))))

not_less_iff : (v w : Version) → (less w v ≡ false) ↔ IsNoLater v w
unfolding less
not_less_iff v w = ground (arith, eq_of_parts v.major w.major, eq_of_parts v.minor w.minor)

-- What a cell of the matrix asks of the version.
abbrev pub Meets : Version → Rule → Type 0
Meets v r =
    (r.level ≡ supported) × ((r.min ≡ zero_version) ⊎ ((v ≢ zero_version) × IsNoLater r.min v))

at_least_iff : (v m : Version) → (at_least v m ≡ true) ↔ ((is_zero v ≡ false) × IsNoLater m v)
unfolding at_least
at_least_iff v m = ground (arith, not_less_iff m v)

IsNoLater-trans : (u v w : Version) → IsNoLater u v → IsNoLater v w → IsNoLater u w
IsNoLater-trans u v w h k = grind arith

known_of_major : (m v : Version) → pos 0 <ℤ m.major → IsNoLater m v → is_zero v ≡ false
unfolding is_zero
known_of_major m v h k = ground arith

at_least-upgrade :
    (m v w : Version) → pos 0 <ℤ m.major → IsNoLater v w → at_least v m ≡ true → at_least w m ≡ true
at_least-upgrade m v w pm le h =
    let above = IsNoLater-trans m v w ((at_least_iff v m).0 h).1 le in
    (at_least_iff w m).1 (known_of_major m w pm above, above)

-- Each cell has no minimum or one with a major number.
abbrev HasGate : Option Rule → Type 0
HasGate none = Unit
HasGate (some r) = (is_zero r.min ≡ true) ⊎ (pos 0 <ℤ r.min.major)

matrix-HasGate : (p : Profile) (proto : Protocol) → HasGate (matrix p proto)
unfolding matrix is_zero pos_part neg_part
matrix-HasGate p proto = ground arith

-- A client that upgrades within its profile loses no protocol.
pub supports-upgrade :
    (p : Profile) (v w : Version) (proto : Protocol)
    → IsNoLater v w
    → supports (record { profile = p; version = v }) proto ≡ true
    → supports (record { profile = p; version = w }) proto ≡ true
unfolding supports
supports-upgrade p v w proto le h = elim (Option-cases (matrix p proto)) [
  | inl e ↦ ground (arith, e)
  | inr (r, e) ↦
      let gate : HasGate (some r) = subst HasGate e (matrix-HasGate p proto) in
      ground (arith, e, gate, at_least-upgrade r.min v w)
]

unversioned : (v m : Version) → at_least zero_version m ≡ true → at_least v m ≡ true
unfolding at_least is_zero pos_part neg_part
unversioned v m h = cc

lumi_closed : (p : Profile) → (matrix p lumi ≡ none) ⊎ (matrix p lumi ≡ some no)
unfolding matrix
lumi_closed p = ground arith

unnamed : (p : Profile) (s : String) → matrix p (unknown_protocol s) ≡ none
unfolding matrix
unnamed p s = ground arith

-- A client of unknown version is offered only what every version of its profile can parse, and no
-- client at all is offered the in-house protocol, a protocol or a dialect that the matrix does not
-- name.
pub supports_safe :
    (c : Client) (proto : Protocol)
    → (supports (record c { version = zero_version }) proto ≡ true → supports c proto ≡ true)
      × (supports c lumi ≡ false)
      × ((s : String) → supports c (unknown_protocol s) ≡ false)
      × ((s : String) → supports (record c { profile = unknown_profile s }) proto ≡ false)
unfolding supports
supports_safe c proto = (
  elim (Option-cases (matrix c.profile proto)) [
    | inl e ↦ ground (arith, e)
    | inr (r, e) ↦ ground (arith, e, unversioned c.version r.min)
  ],
  ground (arith, lumi_closed c.profile),
  λ s. ground (arith, unnamed c.profile s),
  λ s. unfold matrix in refl,
)

-- A list dealt out to two, each keeping the order.
pub data Deals {ℓ} {A : Type ℓ} : List A → List A → List A → Type ℓ where
  done : Deals [] [] []
  left : {x : A} {xs ys zs : List A} → Deals xs ys zs → Deals (x ∷ xs) (x ∷ ys) zs
  right : {x : A} {xs ys zs : List A} → Deals xs ys zs → Deals (x ∷ xs) ys (x ∷ zs)

-- The split loses, repeats and reorders nothing: each protocol goes, in order, to the kept ones if
-- the client supports it and to the dropped ones if not.
pub filter_protocols_lem :
    (c : Client) (protos : List Protocol)
    → let (kept, dropped) = filter_protocols c protos in
      Deals protos kept dropped
      × All (λ p. supports c p ≡ true) kept
      × All (λ p. supports c p ≡ false) dropped
unfolding filter_protocols
filter_protocols_lem c [] = (done, tt, tt)
filter_protocols_lem c (p ∷ ps) =
    let (dealt, ks, ds) = filter_protocols_lem c ps in
    elim (Bool-cases (supports c p)) [
      | inl e ↦ rw e (left dealt, (e, ks), ds)
      | inr e ↦ rw e (right dealt, ks, (e, ds))
    ]
