-- ===== src/Platform/Version.antt =====
-- packages/platform-cli/src/modules.ts: `parseSemver`, `compareSemver` and `versionSatisfies`. A regular
-- expression is read off by recursion over the characters; the numbers of a version are exact, as
-- `Number` is below 2 ^ 53.
pub mod Range
use Prim.Native.Char.{Char, code}
use Prim.Native.String
use Prim.Native.String.{String, [], ◌∷◌}
use Prim.Native.Nat.{◌*◌, Ordering}
use proflow.Base.{
  ℕ, zero, suc, ◌+◌, ◌-◌, ◌≡◌, refl, text_dec, Bool, true, false, not, ◌&&◌, ◌||◌, List, [], ◌∷◌,
  Option, none, some, if◌then◌else◌, ltb, leb, nat_eq, ◌==◌, all, keep,
}

infixl 5 ◌>>=◌
abbrev ◌>>=◌ : {A B : Type 0} → Option A → (A → Option B) → Option B
none >>= f = none
some a >>= f = f a

abbrev between : ℕ → ℕ → Char → Bool
between low high c = leb low (code c) && leb (code c) high

-- `\s`, which is also what `trim` takes off.
abbrev pub is_space : Char → Bool
is_space c =
    between 9 13 c
    || between 32 32 c
    || between 160 160 c
    || between 5760 5760 c
    || between 8192 8202 c
    || between 8232 8233 c
    || between 8239 8239 c
    || between 8287 8287 c
    || between 12288 12288 c
    || between 65279 65279 c

abbrev is_digit : Char → Bool
is_digit = between 48 57

abbrev digit : Char → ℕ
digit c = code c - 48

-- `\d+`: the number read so far, and what follows the digits.
abbrev digits : ℕ → String → ℕ × String
digits n [] = (n, "")
digits n (c ∷ s) = let rest = digits (10 * n + digit c) s in if is_digit c then rest else (n, c ∷ s)

abbrev number : String → Option (ℕ × String)
number [] = none
number (c ∷ s) = if is_digit c then some (digits (digit c) s) else none

-- `^(\d+)\.(\d+)\.(\d+)$`
abbrev after_dot : String → Option (ℕ × String)
after_dot [] = none
after_dot (c ∷ s) = if nat_eq (code c) b'.' then number s else none

abbrev pub Semver : Type 0
Semver = ℕ × ℕ × ℕ

abbrev at_end : ℕ → ℕ → ℕ × String → Option Semver
at_end major minor (patch, s) = if s == "" then some (major, minor, patch) else none

abbrev triple : String → Option Semver
triple s = do
  (major, s1) ← number s
  (minor, s2) ← after_dot s1
  last ← after_dot s2
  at_end major minor last

abbrev trim_start : String → String
trim_start [] = ""
trim_start (c ∷ s) = let rest = trim_start s in if is_space c then rest else c ∷ s

abbrev trim_end : String → String
trim_end [] = ""
trim_end (c ∷ s) = let rest = trim_end s in if is_space c && rest == "" then "" else c ∷ rest

abbrev trim : String → String
trim s = trim_end (trim_start s)

unfoldable pub parse_semver : String → Option Semver
parse_semver s = triple (trim s)

-- One round of the loop: the result so far where the two numbers are equal.
abbrev decide_by : ℕ → ℕ → Ordering → Ordering
decide_by left right next =
    if ltb left right then Ordering.lt else if ltb right left then Ordering.gt else next

abbrev pub compare_semver : Semver → Semver → Ordering
compare_semver (a, b, c) (x, y, z) = decide_by a x (decide_by b y (decide_by c z Ordering.eq))

pub data Comparator : Type 0 where
  at_least more at_most less exactly : Comparator

abbrev pub meets : Comparator → Ordering → Bool
meets at_least Ordering.lt = false
meets at_least _ = true
meets more Ordering.gt = true
meets more _ = false
meets at_most Ordering.gt = false
meets at_most _ = true
meets less Ordering.lt = true
meets less _ = false
meets exactly Ordering.eq = true
meets exactly _ = false

-- `^(>=|<=|>|<|=)?(.+)$`. Where nothing follows the comparator there is no version to parse, however
-- the expression splits such a part.
abbrev or_equal : Comparator → Comparator → String → Comparator × String
or_equal strict loose [] = (strict, "")
or_equal strict loose (c ∷ s) = if nat_eq (code c) b'=' then (loose, s) else (strict, c ∷ s)

abbrev comparator : String → Comparator × String
comparator [] = (exactly, "")
comparator (c ∷ s) =
    if nat_eq (code c) b'>'
    then or_equal more at_least s
    else if nat_eq (code c) b'<'
    then or_equal less at_most s
    else if nat_eq (code c) b'='
    then (exactly, s)
    else (exactly, c ∷ s)

abbrev pub meets_target : Semver → Comparator → Option Semver → Bool
meets_target parsed op none = false
meets_target parsed op (some target) = meets op (compare_semver parsed target)

unfoldable pub part_satisfied : Semver → String → Bool
part_satisfied parsed part =
    if part == "*"
    then true
    else let (op, rest) = comparator part in meets_target parsed op (parse_semver rest)

-- Between any two spaces stands a word, and the empty ones are left out.
abbrev push : String → Char → String
push s c = String.◌++◌ s (c ∷ [])

abbrev words_from : String → String → List String
words_from word [] = word ∷ []
words_from word (c ∷ s) =
    let closed = words_from "" s in
    let longer = words_from (push word c) s in if is_space c then word ∷ closed else longer

unfoldable pub parts_of : String → List String
parts_of range = keep (λ part. if part == "" then false else true) (words_from "" (trim range))

abbrev all_parts : Semver → List String → Bool
all_parts parsed [] = false
all_parts parsed (part ∷ parts) = all (part_satisfied parsed) (part ∷ parts)

abbrev in_range : List String → Option Semver → Bool
in_range parts none = false
in_range parts (some parsed) = all_parts parsed parts

unfoldable pub version_satisfies : String → String → Bool
version_satisfies version range = in_range (parts_of range) (parse_semver version)

in_range_test : version_satisfies "1.4.2" " >=1.2.0  <2.0.0" ≡ true
unfolding version_satisfies parse_semver parts_of part_satisfied text_dec
in_range_test = refl

out_of_range_test : version_satisfies "2.0.0" ">=1.2.0 <2.0.0" ≡ false
unfolding version_satisfies parse_semver parts_of part_satisfied text_dec
out_of_range_test = refl
