-- ===== src/Checks/Agree.antt =====
-- The two readers of extension.env (tools/pkg/validate/checks.go).

use sealed_auction_fce.Prelude.{
  ◌≡◌, refl, ap, ◌∙◌, false, ◌||◌, inl, inr, Option, none, some, List, [], ◌∷◌, String, is_empty,
  str_eq, str_eq_iff, map_get, map_set, map_get-map_set, Bool-cases, Option-cases,
}
use sealed_auction_fce.Checks.{Env, trim_space, split_eq, is_comment}
use sealed_auction_fce.Checks.EnvFile.{scan_vars, scan_pair, assign, parse_extension_env}

abbrev pub or_blank : Option String → String
or_blank none = ""
or_blank (some s) = s

-- The two variables of a map, "" for a missing one.
abbrev pub pair_of : List (String × String) → String × String
pair_of vars =
    (or_blank (map_get vars "EXTENSION_ID"), or_blank (map_get vars "INSTRUCTION_SENDER"))

assign-pair_of :
    (key value : String) (vars : List (String × String))
    → assign key value (pair_of vars) ≡ pair_of (map_set vars key value)
assign-pair_of key value vars =
    rw
      (
        map_get-map_set vars key value "EXTENSION_ID",
        map_get-map_set vars key value "INSTRUCTION_SENDER",
      )
      (elim (Bool-cases (str_eq key "EXTENSION_ID")) [
        | inl id ↦
            let other : str_eq key "INSTRUCTION_SENDER" ≡ false =
              ap (λ t. str_eq t "INSTRUCTION_SENDER") ((str_eq_iff key "EXTENSION_ID").0 id) in
            rw (id, other) refl
        | inr other ↦ elim (Bool-cases (str_eq key "INSTRUCTION_SENDER")) [
          | inl sender ↦ rw (other, sender) refl
          | inr neither ↦ rw (other, neither) refl
        ]
      ])

scan_pair-scan_vars :
    (lines : List String) (vars : List (String × String))
    → scan_pair lines (pair_of vars) ≡ pair_of (scan_vars lines vars)
unfolding scan_pair scan_vars trim_space
scan_pair-scan_vars [] vars = refl
scan_pair-scan_vars (text ∷ lines) vars =
    elim (Bool-cases (is_empty (trim_space text) || is_comment (trim_space text))) [
      | inl skipped ↦ rw skipped (scan_pair-scan_vars lines vars)
      | inr read ↦ rw read (elim (Option-cases (split_eq (trim_space text))) [
        | inl whole ↦ rw whole (scan_pair-scan_vars lines vars)
        | inr ((key, value), parts) ↦ rw parts (
            ap (λ t. scan_pair lines t) (assign-pair_of (trim_space key) (trim_space value) vars)
            ∙ scan_pair-scan_vars lines (map_set vars (trim_space key) (trim_space value)))
      ])
    ]

-- For every file that can be opened, `parseExtensionEnv` returns the values that the map of
-- `CheckExtensionEnvFormat` has for the two variables, with "" for a variable that it has not.
pub parse_extension_env-scan_vars :
    (env : Env) (path : String) (lines : List String)
    → env.lines_of path ≡ some lines
    → parse_extension_env env path ≡ pair_of (scan_vars lines [])
unfolding parse_extension_env map_get
parse_extension_env-scan_vars env path lines opened =
    rw (opened, parse_extension_env)
      (ap (λ t. scan_pair lines t) blank_pair ∙ scan_pair-scan_vars lines [])
  where
    blank_pair : ("", "") ≡ pair_of []
    blank_pair = refl
