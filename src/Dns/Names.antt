-- ===== src/Dns/Names.antt =====
-- internal/shared/netnames/netnames.go and internal/workerdns/resolver.go: the server reads the names
-- that the dashboard shows.
use kindling.Base.{
  ◌&&◌, leb, ℕ, ◌≡◌, refl, ap, ◌∙◌, Bool, true, false, ◌||◌, not, List, [], ◌∷◌, ◌++◌, map, Text,
  codes, is_empty, is_blank, is_space, trim_space, All, arith,
}
use kindling.Dns.{
  Platform, IsPlatform, normalize_label, join, split, drop_empty, private_dns_name, parts_name,
  parse_internal_name, has_suffix, ends_in_dot,
}
use kindling.Dns.Labels.{InLabel, normalize_label-InLabel}
use kindling.Dns.Texts.{
  NoDot, NoSpace, All-join, split-join, trim_space_lem, strip_dot-append, has_suffix-dot,
  ends_in_dot-append,
}

module _ (p : Platform) (law : IsPlatform p) where
  -- A character that the parser leaves alone.
  abbrev IsStable : ℕ → Type 0
  IsStable c = (p.to_lower c ≡ c) × (is_space c ≡ false)

  stable : (t : Text) → All (InLabel p law) t → All IsStable t
  stable [] h = tt
  stable (c ∷ t) ((a, b, _), h) = ((a, b), stable t h)

  no_dot : (t : Text) → All (InLabel p law) t → NoDot t
  no_dot [] h = tt
  no_dot (c ∷ t) ((_, _, d), h) = (d, no_dot t h)

  no_space : (t : Text) → All IsStable t → NoSpace t
  no_space [] h = tt
  no_space (c ∷ t) ((_, d), h) = (d, no_space t h)

  lower_stable : (t : Text) → All IsStable t → map p.to_lower t ≡ t
  lower_stable [] h = refl
  lower_stable (c ∷ t) ((d, _), h) = simp (d, lower_stable t h) refl

  not_blank : (t : Text) → All (InLabel p law) t → is_empty t ≡ false → is_blank t ≡ false
  unfolding is_blank
  not_blank t h e = ap is_empty (trim_space_lem t (no_space t (stable t h))) ∙ e

  abbrev is_plain : ℕ → Bool
  is_plain c = (leb c 64 || (leb 91 c && leb c 127)) && not (is_space c)

  abbrev all_plain : Text → Bool
  all_plain [] = true
  all_plain (c ∷ t) = is_plain c && all_plain t

  plain : (c : ℕ) → is_plain c ≡ true → IsStable c
  plain c h = (law.lower_ascii c (ground arith), ground arith)

  plain_text : (t : Text) → all_plain t ≡ true → All IsStable t
  plain_text [] h = tt
  plain_text (c ∷ t) h = (plain c (ground arith), plain_text t (ground arith))

  abbrev labels : Text → Text → Text → Text → Text → List Text
  labels a b c d e = a ∷ b ∷ c ∷ d ∷ e ∷ codes "kindling" ∷ codes "internal" ∷ []

  module _ (a b c d e : Text) (ha : All (InLabel p law) a) (hb : All (InLabel p law) b)
      (hc : All (InLabel p law) c) (hd : All (InLabel p law) d) (he : All (InLabel p law) e) where
    abbrev name : Text
    name = join (labels a b c d e)

    name_stable : All IsStable name
    unfolding join is_space
    name_stable = All-join IsStable (labels a b c d e) (plain 46 refl) (
      stable a ha,
      (
        stable b hb,
        (
          stable c hc,
          (
            stable d hd,
            (
              stable e he,
              (plain_text (codes "kindling") refl, (plain_text (codes "internal") refl, tt)),
            ),
          ),
        ),
      ),
    )

    name_ends : ends_in_dot name ≡ false
    unfolding join ends_in_dot
    name_ends =
        ends_in_dot-append a 46 _
        ∙ ends_in_dot-append (46 ∷ b) 46 _
        ∙ ends_in_dot-append (46 ∷ c) 46 _
        ∙ ends_in_dot-append (46 ∷ d) 46 _
        ∙ ends_in_dot-append (46 ∷ e) 46 (codes "kindling.internal")

    name_suffix : has_suffix (codes "kindling.internal.") (name ++ 46 ∷ []) ≡ true
    unfolding join has_suffix
    name_suffix = has_suffix-dot (codes "kindling.internal.") a _ (
        has_suffix-dot (codes "kindling.internal.") b _ (
          has_suffix-dot (codes "kindling.internal.") c _ (
            has_suffix-dot (codes "kindling.internal.") d _
              (has_suffix-dot (codes "kindling.internal.") e (codes "kindling.internal") refl))))

    split_name : split name ≡ labels a b c d e
    split_name = split-join a (b ∷ c ∷ d ∷ e ∷ codes "kindling" ∷ codes "internal" ∷ []) (
      no_dot a ha,
      (
        no_dot b hb,
        (
          no_dot c hc,
          (
            no_dot d hd,
            (
              no_dot e he,
              (
                (refl, (refl, (refl, (refl, (refl, (refl, (refl, (refl, tt)))))))),
                ((refl, (refl, (refl, (refl, (refl, (refl, (refl, (refl, tt)))))))), tt),
              ),
            ),
          ),
        ),
      ),
    )

    parse_name : parse_internal_name p name ≡ (parts_name (labels a b c d e), true)
    unfolding parse_internal_name
    parse_name =
        let fq : p.fqdn (trim_space (map p.to_lower name)) ≡ name ++ 46 ∷ [] =
          ap p.fqdn (
            ap trim_space (lower_stable name name_stable)
            ∙ trim_space_lem name (no_space name name_stable))
          ∙ law.fqdn_lem name name_ends in
        simp (fq, name_suffix, parse_internal_name, strip_dot-append name, split_name) refl

  -- The name of five labels that are not empty once normalized is read back as these labels.
  pub parse-private_dns_name :
      (endpoint service project env org : Text)
      → is_empty (normalize_label p endpoint) ≡ false
      → is_empty (normalize_label p service) ≡ false
      → is_empty (normalize_label p project) ≡ false
      → is_empty (normalize_label p env) ≡ false
      → is_empty (normalize_label p org) ≡ false
      → parse_internal_name p (private_dns_name p endpoint service project env org) ≡ (
        record {
          endpoint = normalize_label p endpoint;
          service = normalize_label p service;
          project = normalize_label p project;
          environment = normalize_label p env;
          organization = normalize_label p org;
        },
        true,
      )
  unfolding private_dns_name drop_empty parts_name
  parse-private_dns_name endpoint service project env org fa fb fc fd fe =
      let ha = normalize_label-InLabel p law endpoint in
      let hb = normalize_label-InLabel p law service in
      let hc = normalize_label-InLabel p law project in
      let hd = normalize_label-InLabel p law env in
      let he = normalize_label-InLabel p law org in
      simp
        (
          private_dns_name,
          drop_empty,
          fa,
          fb,
          fc,
          fd,
          fe,
          parse_name _ _ _ _ _ ha hb hc hd he,
          parts_name,
          not_blank _ ha fa,
          not_blank _ hb fb,
          not_blank _ hc fc,
          not_blank _ hd fd,
          not_blank _ he fe,
        )
        refl
