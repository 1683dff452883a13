-- ===== src/Dns.antt =====
-- internal/shared/netnames/netnames.go and internal/workerdns/resolver.go: the names of the services in
-- the private domain, and the server that answers for them.
--
-- The tables of the package unicode and `Fqdn` of the package dns are a `Platform`; `IsPlatform` is what
-- the code relies on of them.
pub mod Labels
pub mod Texts
pub mod Names
pub mod Resolver
pub mod Grants
mod Examples
use kindling.Base.{
  ℕ, ◌≡◌, ◌==◌, Bool, true, false, ◌&&◌, ◌||◌, not, Option, none, some, List, [], ◌∷◌, ◌++◌, map,
  Text, codes, is_blank, is_empty, is_space, trim_space, trim_left, trim_right, text_eq,
  if◌then◌else◌, leb,
}

pub record Platform : Type 0 where
  pub is_letter : ℕ → Bool
  pub is_digit : ℕ → Bool
  pub to_lower : ℕ → ℕ
  pub fqdn : Text → Text

pub ends_in_dot : Text → Bool
ends_in_dot [] = false
ends_in_dot (c ∷ []) = c == 46
ends_in_dot (c ∷ d ∷ s) = ends_in_dot (d ∷ s)

-- What the packages document: letters and digits are no spaces and no dots, lower case is stable and
-- leaves the other characters of ASCII, and a dot is appended to a name without one.
pub record IsPlatform (p : Platform) : Type 0 where
  pub not_space : (c : ℕ) → (p.is_letter c || p.is_digit c) ≡ true → is_space c ≡ false
  pub not_dot : (c : ℕ) → (p.is_letter c || p.is_digit c) ≡ true → c == 46 ≡ false
  pub lower_twice : (c : ℕ) → p.to_lower (p.to_lower c) ≡ p.to_lower c
  pub lower_ascii : (c : ℕ) → (leb c 64 || (leb 91 c && leb c 127)) ≡ true → p.to_lower c ≡ c
  pub fqdn_lem : (s : Text) → ends_in_dot s ≡ false → p.fqdn s ≡ s ++ (46 ∷ [])

-- The loop of `NormalizeLabel`: whether something has been written, and whether it ends in a hyphen.
pub write_label : Platform → Bool → Bool → Text → Text
write_label p begun hyphen [] = []
write_label p begun hyphen (c ∷ s) =
    let letter = c ∷ write_label p true false s in
    let dash = 45 ∷ write_label p true true s in
    let skip = write_label p begun hyphen s in
    if p.is_letter c || p.is_digit c
    then letter
    else if c == 45 || c == 95 || is_space c
    then (if not begun || hyphen then skip else dash)
    else skip

-- `strings.Trim(s, "-")`.
pub trim_hyphens : Text → Text
trim_hyphens s = trim_left (λ c. c == 45) (trim_right (λ c. c == 45) s)

pub normalize_label : Platform → Text → Text
normalize_label p raw = trim_hyphens (write_label p false false (trim_space (map p.to_lower raw)))

-- `strings.Join` and `strings.Split` with a dot.
pub join : List Text → Text
join [] = []
join (t ∷ []) = t
join (t ∷ t' ∷ ts) = t ++ 46 ∷ join (t' ∷ ts)

abbrev pub extend_first : ℕ → List Text → List Text
extend_first c [] = (c ∷ []) ∷ []
extend_first c (t ∷ ts) = (c ∷ t) ∷ ts

pub split : Text → List Text
split [] = [] ∷ []
split (c ∷ s) = let rest = split s in if c == 46 then [] ∷ rest else extend_first c rest

pub drop_empty : List Text → List Text
drop_empty [] = []
drop_empty (t ∷ ts) = let rest = drop_empty ts in if is_empty t then rest else t ∷ rest

pub private_dns_name : Platform → Text → Text → Text → Text → Text → Text
private_dns_name p endpoint service project env org = join (
    drop_empty (
      normalize_label p endpoint
      ∷ normalize_label p service
      ∷ normalize_label p project
      ∷ normalize_label p env
      ∷ normalize_label p org
      ∷ codes "kindling"
      ∷ codes "internal"
      ∷ []))

pub has_suffix : Text → Text → Bool
has_suffix end [] = text_eq [] end
has_suffix end (c ∷ s) = text_eq (c ∷ s) end || has_suffix end s

-- `strings.TrimSuffix(s, ".")`.
pub strip_dot : Text → Text
strip_dot [] = []
strip_dot (c ∷ []) = if c == 46 then [] else c ∷ []
strip_dot (c ∷ d ∷ s) = c ∷ strip_dot (d ∷ s)

pub record InternalName : Type 0 where
  pub endpoint : Text
  pub service : Text
  pub project : Text
  pub environment : Text
  pub organization : Text

abbrev pub no_name : InternalName
no_name = record { endpoint = []; service = []; project = []; environment = []; organization = [] }

-- The name of the parts, of which there must be seven.
pub parts_name : List Text → InternalName
parts_name (a ∷ b ∷ c ∷ d ∷ e ∷ f ∷ g ∷ []) =
    if is_blank a || is_blank b || is_blank c || is_blank d || is_blank e
    then no_name
    else record { endpoint = a; service = b; project = c; environment = d; organization = e }
parts_name other = no_name

pub parse_internal_name : Platform → Text → InternalName × Bool
parse_internal_name p qname =
    let fqdn = p.fqdn (trim_space (map p.to_lower qname)) in
    if not (has_suffix (codes "kindling.internal.") fqdn)
    then (no_name, false)
    else (parts_name (split (strip_dot fqdn)), true)
