-- ===== src/E2b/Auth/Tests.antt =====
-- The configuration of pkg/e2bcompat/server.go, and whom it lets in, at concrete inputs.
use sandbox_operator.Prelude.{◌≡◌, refl, false, none, some, List, [], ◌∷◌, list_beq, Text, codes}
use sandbox_operator.Errors.{ok}
use sandbox_operator.EnvdProxy.{Unicode}
use sandbox_operator.E2b.Keys.{Options, Config, new_server, auth}
use sandbox_operator.E2b.Auth.{Admits, auth-Admits}

abbrev unicode : Unicode
unicode = record { to_lower = λ s. s; trim_space = λ s. s; equal_fold = λ s t. false }

abbrev no_words : Text → List Text
no_words s = []

abbrev given : Options
given = record {
  namespace = [];
  domain = codes "e.dev";
  envd_version = [];
  default_timeout_seconds = 0;
  api_keys = codes "k1" ∷ codes " k2 team " ∷ [];
  allow_anonymous = false;
  template_aliases = codes "base img medium" ∷ [];
  envd_secret = codes "s";
}

abbrev config : Config
config = record {
  opts = record given {
    namespace = codes "default";
    envd_version = codes "1";
    default_timeout_seconds = 15;
  };
  keys = (codes "k1", codes "default") ∷ (codes "k2", codes "team") ∷ [];
  aliases = (codes "base", record { template = codes "img"; net = []; size = codes "medium" }) ∷ [];
  image_aliases = (codes "img", codes "base" ∷ []) ∷ [];
}

made : new_server unicode no_words (codes "1") 15 given ≡ ok config
unfolding new_server list_beq
made = refl

let_in : auth config (codes "k2") ≡ some (codes "team")
unfolding auth list_beq
let_in = refl

kept_out : auth config [] ≡ none
unfolding auth
kept_out = refl

auth-Admits_example : Admits no_words given (codes "k2") (codes "team")
auth-Admits_example =
    auth-Admits unicode no_words (codes "1") 15 given config (codes "k2") (codes "team") made let_in
