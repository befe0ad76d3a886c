-- ===== src/Incidents/Evidence/Secrets.antt =====
-- What a failure capsule shows of the environment (evidence.py: _safe_environment).
use zgent.Common.{
  String, str_eq, eq_iff, ◌≡◌, refl, sym, ap, ◌∙◌, Bool, true, false, not, some, [], ◌∷◌, ◌⊎◌, inl,
  inr, arith, Bool-cases, if◌then◌else◌,
}
use zgent.Common.Dict.{Dict, get, put, get-put}
use zgent.Common.Text.{str_take, has_part, upper, has_prefix}
use zgent.Incidents.Evidence.{
  is_secret, secret_markers, is_safe_name, add_safe, sorted_keys, safe_environment,
}

-- Every entry of an environment satisfies a property of its key.
abbrev pub Keys : (String → Type 0) → Dict String → Type 0
Keys P d = (k v : String) → get d k ≡ some v → P k

abbrev pub IsShown : String → Type 0
IsShown k = (k ≡ "python_executable") ⊎ (k ≡ "python_version") ⊎ (is_safe_name k ≡ true)

abbrev Holds : String → Type 0
Holds k = (is_secret k ≡ false) × IsShown k

add-Holds :
    (d : Dict String) (j v : String)
    → Keys Holds d
    → is_secret j ≡ false
    → is_safe_name j ≡ true
    → Keys Holds (put d j v)
add-Holds d j v h plain safe k u e = elim (Bool-cases (str_eq j k)) [
  | inl same ↦ (ground (arith, eq_iff j k), inr (inr (ground (arith, eq_iff j k))))
  | inr other ↦ h k u (ground (arith, get-put d j k v))
]

add_safe-Holds : (env d : Dict String) → Keys Holds d → Keys Holds (add_safe d env)
unfolding add_safe
add_safe-Holds [] d h = h
add_safe-Holds ((j, v) ∷ env) d h =
    add_safe-Holds env _ (go (is_secret j) refl (is_safe_name j) refl)
  where
    go :
        (b : Bool)
        → is_secret j ≡ b
        → (c : Bool) → is_safe_name j ≡ c
        → Keys Holds (if b then d else if not c then d else put d j (str_take 512 v))
    go true e c e' = h
    go false e false e' = h
    go false e true e' = add-Holds d j (str_take 512 v) h e e'

facts_plain : (is_secret "python_executable" ≡ false) × (is_secret "python_version" ≡ false)
unfolding is_secret secret_markers has_part upper has_prefix
facts_plain = (refl, refl)

of_interpreter :
    (executable version : String)
    → Keys Holds (("python_executable", executable) ∷ ("python_version", version) ∷ [])
unfolding get
of_interpreter executable version k v e = elim (Bool-cases (str_eq "python_executable" k)) [
  | inl t ↦
      let same = (eq_iff "python_executable" k).0 t in
      (ap is_secret (sym same) ∙ facts_plain.0, inl (sym same))
  | inr f ↦ elim (Bool-cases (str_eq "python_version" k)) [
    | inl t ↦
        let same = (eq_iff "python_version" k).0 t in
        (ap is_secret (sym same) ∙ facts_plain.1, inr (inl (sym same)))
    | inr g ↦ ground arith
  ]
]

-- What the summary of an environment shows is one of the two facts on the interpreter or a variable
-- that is named as safe, and never a variable whose name, in upper case, has a secret's marker.
pub safe_environment-no_secrets :
    (executable version : String) (env : Dict String) (k v : String)
    → get (safe_environment executable version env) k ≡ some v
    → (is_secret k ≡ false) × IsShown k
unfolding safe_environment get
safe_environment-no_secrets executable version env =
    add_safe-Holds (sorted_keys env) _ (of_interpreter executable version)
