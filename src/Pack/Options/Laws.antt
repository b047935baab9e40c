-- ===== src/Pack/Options/Laws.antt =====
-- What the arguments of dnar-pack mean (internal/cmd/dnar-pack/main.go).
use deltanar.Base.{◌≡◌, ◌≢◌, ◌↔◌, sym, ap, ◌∙◌, [], false, Bool-cases, inl, inr, if_true, if_false}
use mathlib.Core.Path.{subst}
use deltanar.Base.Text.{bytes, Text, text_eq, text_eq_iff}
use deltanar.Base.Flags.{Settings, flag_value}
use deltanar.Base.Flags.Laws.{
  AreFlags, flag_args, set_all, parse_flags-flag_args, last_value, flag_value-set_all,
}
use deltanar.Pack.Options.{
  Options, started, panicked, pack_flags, options_of, check_options, start_with, pack_options,
}

ne_nil : (t : Text) → text_eq t [] ≡ false → t ≢ []
ne_nil t e h = let k = sym ((text_eq_iff t []).1 h) ∙ e in cc

is_nil_false : (t : Text) → t ≢ [] → text_eq t [] ≡ false
is_nil_false t h = elim (Bool-cases (text_eq t [])) [
  | inl e ↦ absurd (h ((text_eq_iff t []).0 e))
  | inr e ↦ e
]

panicked-ne-started : {o : Options} → panicked ≡ started o → ⊥
panicked-ne-started h = cc

started-injective : {o o' : Options} → started o ≡ started o' → o ≡ o'
started-injective h = cc

check_options-started :
    (o o' : Options)
    → check_options o ≡ started o'
    → (o' ≡ o) × (o.deploy_host ≢ []) × (o.store_path ≢ [])
unfolding check_options
check_options-started o o' h = elim (Bool-cases (text_eq o.deploy_host [])) [
  | inl e ↦ absurd (panicked-ne-started (sym (if_true _ _ _ e) ∙ h))
  | inr e ↦
      let k = sym (if_false (text_eq o.deploy_host []) panicked _ e) ∙ h in
      elim (Bool-cases (text_eq o.store_path [])) [
        | inl e' ↦ absurd (panicked-ne-started (sym (if_true (text_eq o.store_path []) _ _ e') ∙ k))
        | inr e' ↦ (
          sym (
              started-injective
                (sym (if_false (text_eq o.store_path []) panicked (started o) e') ∙ k)),
          ne_nil o.deploy_host e,
          ne_nil o.store_path e',
        )
      ]
]

started-check_options :
    (o : Options) → o.deploy_host ≢ [] → o.store_path ≢ [] → check_options o ≡ started o
unfolding check_options
started-check_options o h k =
    if_false (text_eq o.deploy_host []) panicked _ (is_nil_false o.deploy_host h)
    ∙ if_false (text_eq o.store_path []) panicked (started o) (is_nil_false o.store_path k)

start-flag_args :
    (set : Settings)
    → AreFlags pack_flags set
    → pack_options (flag_args set) ≡ check_options (options_of (set_all set []))
unfolding pack_options start_with
start-flag_args set h = ap (λ p. start_with p) (parse_flags-flag_args pack_flags set [] h)

-- What the arguments say, by the flags' names and defaults.
abbrev pub Says : Settings → Options → Type 0
Says set o =
    (o.db_path ≡ last_value (bytes "db") (bytes "dnar.sqlite3") set)
    × (o.gc_roots_dir ≡ last_value (bytes "gcroots") (bytes "gcroots") set)
    × (o.deploy_host ≡ last_value (bytes "host") [] set)
    × (o.store_path ≡ last_value (bytes "path") [] set)
    × (o.output_file ≡ last_value (bytes "out") (bytes "delta.dnar") set)

options_of-Says : (set : Settings) → Says set (options_of (set_all set []))
unfolding options_of flag_value
options_of-Says set = (
  flag_value-set_all (bytes "db") (bytes "dnar.sqlite3") set [],
  flag_value-set_all (bytes "gcroots") (bytes "gcroots") set [],
  flag_value-set_all (bytes "host") [] set [],
  flag_value-set_all (bytes "path") [] set [],
  flag_value-set_all (bytes "out") (bytes "delta.dnar") set [],
)

Says-same : (set : Settings) (o o' : Options) → Says set o → Says set o' → o ≡ o'
Says-same set o o' (a, b, c, d, e) (a', b', c', d', e') =
    let same_db = a ∙ sym a' in
    let same_roots = b ∙ sym b' in
    let same_host = c ∙ sym c' in let same_path = d ∙ sym d' in let same_out = e ∙ sym e' in cc

-- With flags of the program that are each followed by their value: the packer starts exactly if the last
-- host and the last path that were given are not empty, and then each variable has the last value of its
-- flag, or the flag's default.
pub pack_options-flag_args :
    (set : Settings) (o : Options)
    → AreFlags pack_flags set
    → (pack_options (flag_args set) ≡ started o)
      ↔ (Says set o × (o.deploy_host ≢ []) × (o.store_path ≢ []))
pack_options-flag_args set o h = (
  λ e.
      let (same, a, b) =
        check_options-started (options_of (set_all set [])) o (sym (start-flag_args set h) ∙ e) in
      (
        subst (λ x. Says set x) (sym same) (options_of-Says set),
        subst (λ x. x.deploy_host ≢ []) (sym same) a,
        subst (λ x. x.store_path ≢ []) (sym same) b,
      ),
  λ (says, a, b).
      let same = Says-same set (options_of (set_all set [])) o (options_of-Says set) says in
      start-flag_args set h ∙ (ap (λ x. check_options x) same ∙ started-check_options o a b),
)
