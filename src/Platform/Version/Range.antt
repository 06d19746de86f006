-- ===== src/Platform/Version/Range.antt =====
-- `versionSatisfies` of packages/platform-cli/src/modules.ts: the versions that a range takes.
use Prim.Native.Char.{Char, code}
use Prim.Native.String.{[], ◌∷◌}
use proflow.Base.{
  String, ℕ, ◌≡◌, ◌≢◌, refl, ap, ◌<◌, ◌⊎◌, inl, inr, ◌↔◌, true, false, List, [], ◌∷◌, some, arith,
  all, map, All, nat_eq, ◌==◌, Bool-cases, ==_iff,
}
use proflow.Platform.Version.{
  Semver, Comparator, at_least, more, at_most, less, exactly, meets, compare_semver, comparator,
  parse_semver, part_satisfied, parts_of, version_satisfies,
}

-- The order of versions: the first two numbers that differ decide.
abbrev pub Before : Semver → Semver → Type 0
Before (a, b, c) (x, y, z) = (a < x) ⊎ ((a ≡ x) × ((b < y) ⊎ ((b ≡ y) × (c < z))))

-- The comparators as they are written in front of a version.
pub data Sign : Type 0 where
  from after up_to below equal bare : Sign

-- The text of a bound: its sign in front of the text of a version.
abbrev pub written : Sign → String → String
written from text = ">" ∷ "=" ∷ text
written after text = ">" ∷ text
written up_to text = "<" ∷ "=" ∷ text
written below text = "<" ∷ text
written equal text = "=" ∷ text
written bare text = text

-- The version stands to the bound as the sign says.
abbrev pub Allows : Sign → Semver → Semver → Type 0
Allows from version bound = Before bound version ⊎ (version ≡ bound)
Allows after version bound = Before bound version
Allows up_to version bound = Before version bound ⊎ (version ≡ bound)
Allows below version bound = Before version bound
Allows equal version bound = version ≡ bound
Allows bare version bound = version ≡ bound

abbrev op_of : Sign → Comparator
op_of from = at_least
op_of after = more
op_of up_to = at_most
op_of below = less
op_of equal = exactly
op_of bare = exactly

meets-Allows :
    (sign : Sign) (v t : Semver)
    → (meets (op_of sign) (compare_semver v t) ≡ true) ↔ Allows sign v t
meets-Allows from v t = (λ h. ground (arith, h), λ h. ground (arith, h))
meets-Allows after v t = (λ h. ground (arith, h), λ h. ground (arith, h))
meets-Allows up_to v t = (λ h. ground (arith, h), λ h. ground (arith, h))
meets-Allows below v t = (λ h. ground (arith, h), λ h. ground (arith, h))
meets-Allows equal v t = (λ h. ground (arith, h), λ h. ground (arith, h))
meets-Allows bare v t = (λ h. ground (arith, h), λ h. ground (arith, h))

-- What parses as a version does not begin with a comparator or a star.
parsed_head :
    (c : Char) (s : String) (t : Semver)
    → parse_semver (c ∷ s) ≡ some t
    → (nat_eq (code c) b'=' ≡ false)
      × (nat_eq (code c) b'<' ≡ false)
      × (nat_eq (code c) b'>' ≡ false)
      × (nat_eq (code c) b'*' ≡ false)
unfolding parse_semver
parsed_head c s t h = ground (arith, h)

unparsed : (t : Semver) → parse_semver "" ≢ some t
unfolding parse_semver
unparsed t h = cc

comparator-written :
    (sign : Sign) (text : String) (t : Semver)
    → parse_semver text ≡ some t
    → comparator (written sign text) ≡ (op_of sign, text)
comparator-written sign [] t h = absurd (unparsed t h)
comparator-written from (c ∷ s) t h = refl
comparator-written after (c ∷ s) t h = ground (arith, parsed_head c s t h)
comparator-written up_to (c ∷ s) t h = refl
comparator-written below (c ∷ s) t h = ground (arith, parsed_head c s t h)
comparator-written equal (c ∷ s) t h = refl
comparator-written bare (c ∷ s) t h = ground (arith, parsed_head c s t h)

abbrev head_code : String → ℕ
head_code [] = 0
head_code (c ∷ s) = code c

star : (c : Char) (s : String) → nat_eq (code c) b'*' ≡ false → ◌≢◌ {A = String} (c ∷ s) "*"
star c s h e = let first : code c ≡ head_code "*" = ap head_code e in ground (arith, h, first)

not_star : (c : Char) (s : String) → nat_eq (code c) b'*' ≡ false → (c ∷ s == "*") ≡ false
not_star c s h = elim (Bool-cases (c ∷ s == "*")) [
  | inl e ↦ absurd (star c s h ((==_iff (c ∷ s) "*").0 e))
  | inr e ↦ e
]

written-not_star :
    (sign : Sign) (text : String) (t : Semver)
    → parse_semver text ≡ some t
    → (written sign text == "*") ≡ false
written-not_star from text t h = not_star ">" ("=" ∷ text) refl
written-not_star after text t h = not_star ">" text refl
written-not_star up_to text t h = not_star "<" ("=" ∷ text) refl
written-not_star below text t h = not_star "<" text refl
written-not_star equal text t h = not_star "=" text refl
written-not_star bare [] t h = absurd (unparsed t h)
written-not_star bare (c ∷ s) t h = let (_, _, _, q) = parsed_head c s t h in not_star c s q

-- A part of a range: a sign in front of a version text.
pub record Bound : Type 0 where
  pub sign : Sign
  pub text : String
  pub version : Semver

abbrev pub part_of : Bound → String
part_of b = written b.sign b.text

part_satisfied-Allows :
    (v : Semver) (b : Bound)
    → parse_semver b.text ≡ some b.version
    → (part_satisfied v (part_of b) ≡ true) ↔ Allows b.sign v b.version
unfolding part_satisfied
part_satisfied-Allows v b h =
    rw (written-not_star b.sign b.text b.version h, comparator-written b.sign b.text b.version h, h)
      (meets-Allows b.sign v b.version)

all-Allows :
    (v : Semver) (bounds : List Bound)
    → All (λ (b : Bound). parse_semver b.text ≡ some b.version) bounds
    → (all (part_satisfied v) (map part_of bounds) ≡ true)
      ↔ All (λ (b : Bound). Allows b.sign v b.version) bounds
all-Allows v [] h = (λ _. tt, λ _. refl)
all-Allows v (b ∷ bs) h =
    let one = part_satisfied-Allows v b h.0 in
    let rest = all-Allows v bs h.1 in
    (
      λ e. (one.0 (ground (arith, e)), rest.0 (ground (arith, e))),
      λ (p, ps). ground (arith, one.1 p, rest.1 ps),
    )

-- Where the parts of a range are bounds, each a sign `>=`, `>`, `<=`, `<`, `=` or none in front of a
-- text that parses as a version, and there is one at least, a text that parses as a version satisfies
-- the range exactly where the version stands to every bound as its sign says, in the order in which
-- the first two numbers that differ decide.
pub version_satisfies-Allows :
    (text range : String) (v : Semver) (b : Bound) (bounds : List Bound)
    → parse_semver text ≡ some v
    → parts_of range ≡ map part_of (b ∷ bounds)
    → All (λ (b : Bound). parse_semver b.text ≡ some b.version) (b ∷ bounds)
    → (version_satisfies text range ≡ true)
      ↔ All (λ (b : Bound). Allows b.sign v b.version) (b ∷ bounds)
unfolding version_satisfies
version_satisfies-Allows text range v b bounds h e parses =
    rw (h, e) (all-Allows v (b ∷ bounds) parses)
