-- ===== src/Tests/EnvRuns.antt =====
-- The environment variables at concrete inputs.
use skywalking_infra_e2e.Environment.RoundTrip.{IsPlain}
use skywalking_infra_e2e.Environment.{split_once}
use skywalking_infra_e2e.Base.{
  ◌≡◌, refl, false, List, [], ◌∷◌, Text, codes, text_eq, contains_byte, has_prefix,
}
use skywalking_infra_e2e.Environment.{
  Env, env_overwrite, export_lines, is_refused, find_groups, match_at,
}
use skywalking_infra_e2e.Environment.Laws.{sets, export_lines-sets}

abbrev no_env : Env
no_env k = []

accepted : is_refused (codes "K") (env_overwrite no_env (codes "v")) ≡ false
unfolding env_overwrite contains_byte find_groups match_at
accepted = refl

no_comment : has_prefix (codes "K=v") (codes "#") ≡ false
unfolding has_prefix
no_comment = refl

not_set : sets (codes "K") (codes "L=w") ≡ false
unfolding has_prefix split_once text_eq
not_set = refl

export_lines-sets_example :
    export_lines (codes "K=v" ∷ codes "L=w" ∷ []) no_env (codes "K")
    ≡ env_overwrite no_env (codes "v")
export_lines-sets_example =
    export_lines-sets (codes "K") (codes "v") (codes "L=w" ∷ []) no_env accepted no_comment
      (not_set, tt)

abbrev pub two_settings : List (Text × Text)
two_settings = (codes "A", codes "1=2") ∷ (codes "A", codes "3") ∷ []

pub first-IsPlain : IsPlain (codes "A", codes "1=2")
unfolding contains_byte has_prefix
first-IsPlain = record {
  key_set = refl;
  no_comment = refl;
  key_sign = refl;
  key_line = refl;
  key_zero = refl;
  val_line = refl;
  val_zero = refl;
  val_dollar = refl;
}

pub last-IsPlain : IsPlain (codes "A", codes "3")
unfolding contains_byte has_prefix
last-IsPlain = record {
  key_set = refl;
  no_comment = refl;
  key_sign = refl;
  key_line = refl;
  key_zero = refl;
  val_line = refl;
  val_zero = refl;
  val_dollar = refl;
}
