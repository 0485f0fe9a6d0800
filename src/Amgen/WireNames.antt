-- ===== src/Amgen/WireNames.antt =====
-- cmd/amgen/src/main.rs, macros/src/lib.rs: the Go code of a message has the wire name of the Rust type.
use adaptivemsg_rust.Base.{
  ℕ, ◌≡◌, ◌≢◌, refl, ap, List, [], ◌∷◌, ◌++◌, Option, some, none, Bool, true, false, ◌||◌, ◌==◌,
  not, if◌then◌else◌, arith, All, Bool-cases, Option-cases, inl, inr, ◌⊎◌, get_last?,
}
use mathlib.Core.Path.{subst}
use adaptivemsg_rust.Amgen.Texts.{Text, codes, same, same→eq}
use adaptivemsg_rust.Amgen.Names.{
  MessageAttr, unwrap_or, dotted, has_override, compute_wire_name, wire_name_static,
}
use adaptivemsg_rust.Amgen.Render.{escape, format_go_string}

-- A string literal of Go between quotes, as the language reads it, with the two escapes that are written; a literal
-- has no line break.
abbrev pub unquote_rest : Text → Option Text
unquote_rest [] = none
unquote_rest (c ∷ []) = if c == 34 then some [] else none
unquote_rest (c ∷ d ∷ rest) =
    let escaped = unquote_rest rest in
    let plain = unquote_rest (d ∷ rest) in
    if c == 34
    then none
    else if c == 10
    then none
    else if c == 92
    then (if d == 92 || d == 34 then elim escaped [ none ↦ none | some t ↦ some (d ∷ t) ] else none)
    else elim plain [ none ↦ none | some t ↦ some (c ∷ t) ]

abbrev pub unquote : Text → Option Text
unquote [] = none
unquote (c ∷ t) = if c == 34 then unquote_rest t else none

abbrev pub NoNewline : Text → Type 0
NoNewline t = All (λ c. c ≢ 10) t

unquote_rest-plain :
    (c : ℕ) (x t : Text)
    → c ≢ 92
    → c ≢ 34
    → c ≢ 10
    → unquote_rest x ≡ some t
    → unquote_rest (c ∷ x) ≡ some (c ∷ t)
unquote_rest-plain c [] t a b d e = cc e
unquote_rest-plain c (y ∷ x) t a b d e = ground (arith, a, b, d, e)

unquote_rest-escaped :
    (d : ℕ) (x t : Text)
    → (d == 92 || d == 34) ≡ true
    → unquote_rest x ≡ some t
    → unquote_rest (92 ∷ d ∷ x) ≡ some (d ∷ t)
unquote_rest-escaped d x t a e = rw (unquote_rest, a, e) refl

unquote_rest-escape : (v : Text) → NoNewline v → unquote_rest (escape v ++ 34 ∷ []) ≡ some v
unquote_rest-escape [] n = refl
unquote_rest-escape (c ∷ v) n =
    let rest = unquote_rest-escape v n.1 in
    elim (Bool-cases (c == 92)) [
      | inl e ↦
          let k : c ≡ 92 = ground (arith, e) in
          rw k (unquote_rest-escaped 92 (escape v ++ 34 ∷ []) v refl rest)
      | inr e ↦ elim (Bool-cases (c == 34)) [
        | inl q ↦
            let k : c ≡ 34 = ground (arith, q) in
            rw k (unquote_rest-escaped 34 (escape v ++ 34 ∷ []) v refl rest)
        | inr q ↦
            rw (e, q)
              (unquote_rest-plain c (escape v ++ 34 ∷ []) v (ground (arith, e)) (ground (arith, q))
                n.0 rest)
      ]
    ]

-- The wire name of the Go type: what its method returns, or else the name that the Go library derives.
abbrev pub go_wire_name : (Text → Text → Text) → Text → Text → Option Text → Option Text
go_wire_name default_name package_name type_name none = some (default_name package_name type_name)
go_wire_name default_name package_name type_name (some wire) = unquote (format_go_string wire)

compute-cases :
    (module_name type_name : Text) (attr : MessageAttr) (force : Bool)
    → (compute_wire_name module_name type_name attr force
        ≡ some (
            dotted
              (unwrap_or attr.ns (codes "am"))
              (unwrap_or attr.name (dotted module_name type_name))))
      ⊎ ((compute_wire_name module_name type_name attr force ≡ none)
          × (force ≡ false)
          × (has_override attr ≡ false))
unfolding compute_wire_name
compute-cases module_name type_name attr force = elim (Bool-cases (force || has_override attr)) [
  | inl e ↦ inl (ground (arith, e))
  | inr e ↦ inr (ground (arith, e), ground (arith, e), ground (arith, e))
]

no_override :
    (attr : MessageAttr)
    → has_override attr ≡ false
    → (attr.name ≡ none) × (unwrap_or attr.ns (codes "am") ≡ codes "am")
no_override attr e = elim (Option-cases attr.name) [
  | inr (name, k) ↦ absurd (ground (arith, e, k))
  | inl k ↦ elim (Option-cases attr.ns) [
    | inl q ↦ (k, rw q refl)
    | inr (ns, q) ↦
        let own : same ns (codes "am") ≡ true = ground (arith, e, k, q) in
        (k, rw q (same→eq ns (codes "am") own))
  ]
]

abbrev named : MessageAttr → Text → Text → Text
named attr module_name type_name =
    dotted (unwrap_or attr.ns (codes "am")) (unwrap_or attr.name (dotted module_name type_name))

named_lem :
    (attr : MessageAttr) (module_path : List Text) (module_name type_name : Text)
    → get_last? module_path ≡ some module_name
    → wire_name_static attr module_path type_name ≡ named attr module_name type_name
unfolding wire_name_static
named_lem attr module_path module_name type_name e =
    ap
      (λ m.
        dotted (unwrap_or attr.ns (codes "am"))
          (unwrap_or attr.name (dotted (unwrap_or m (codes "unknown")) type_name)))
      e

-- A type whose module path ends in the module that the generator found has, in Go, the wire name that the macro gives
-- it in Rust, whatever its attribute says, if the name has no line break: the generator writes a method if the package
-- of the Go file has another name than the module or the attribute has a namespace or a name of its own, and otherwise
-- the Go library derives `am`, the package and the type, which is what is assumed of it.
pub wire_name_agreement :
    (default_name : Text → Text → Text) (attr : MessageAttr) (module_path : List Text)
    (package_name module_name type_name : Text)
    → ((p t : Text) → default_name p t ≡ dotted (codes "am") (dotted p t))
    → get_last? module_path ≡ some module_name
    → NoNewline (wire_name_static attr module_path type_name)
    → go_wire_name default_name package_name type_name
        (compute_wire_name module_name type_name attr (not (same package_name module_name)))
      ≡ some (wire_name_static attr module_path type_name)
unfolding wire_name_static format_go_string
wire_name_agreement default_name attr module_path package_name module_name type_name law last n =
    elim (compute-cases module_name type_name attr (not (same package_name module_name))) [
      | inl e ↦
          rw (e, last)
            (unquote_rest-escape (named attr module_name type_name)
              (subst NoNewline (named_lem attr module_path module_name type_name last) n))
      | inr (e, f, g) ↦
          let (k, q) = no_override attr g in
          let same_name = same→eq package_name module_name (ground (arith, f)) in
          rw (e, k, q, last, law package_name type_name, same_name) refl
    ]
