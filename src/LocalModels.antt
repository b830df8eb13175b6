-- ===== src/LocalModels.antt =====
-- src/inboxlume/local_models.py: the catalogue of local models and the two ways to name one; and
-- src/inboxlume/direct_trash_guard.py, which asks it who may move a message to the trash directly.
-- Seconds and sizes are in tenths, a confidence is in millionths.
pub mod Laws
use inboxlume.Base.{
  ℕ, ◌+◌, Bool, true, false, ◌&&◌, ◌||◌, not, String, ◌<>◌, List, [], ◌∷◌, leb, str_eq,
  if◌then◌else◌, Option, none, some, ok, raise, value_error, Result, require, ◌>>=◌, ◌>>◌,
}
use Prim.Native.Char.{code}

pub data LocalModelProfile : Type 0 where
  qwen8 gemma12 gemma26 : LocalModelProfile

pub record LocalModelSpec : Type 0 where
  pub profile : LocalModelProfile
  pub display_name : String
  pub tier : String
  pub backend : String
  pub ollama_model : String
  pub recommended_memory_gib : ℕ
  pub observed_cold_seconds : ℕ
  pub observed_peak_gib : Option ℕ
  pub review_confidence : ℕ
  pub quarantine_confidence : ℕ
  pub direct_trash_allowed : Bool
  pub quality_notice : String
  pub mlx_cache_directory : Option String

-- `MODEL_CATALOG` and `model_spec`
unfoldable pub model_spec : LocalModelProfile → LocalModelSpec
model_spec LocalModelProfile.qwen8 = record {
  profile = LocalModelProfile.qwen8;
  display_name = "Qwen 8B · Lightweight";
  tier = "Lightweight";
  backend = "ollama";
  ollama_model = "qwen3-vl:8b";
  recommended_memory_gib = 12;
  observed_cold_seconds = 54;
  observed_peak_gib = none;
  review_confidence = 800000;
  quarantine_confidence = 900000;
  direct_trash_allowed = false;
  quality_notice =
      "The lightest profile, but preliminary tests showed more confusion between legitimate advertising and spam. It uses stricter thresholds and Quarantine only.";
  mlx_cache_directory = none;
}
model_spec LocalModelProfile.gemma12 = record {
  profile = LocalModelProfile.gemma12;
  display_name = "Gemma 12B · Balanced";
  tier = "Balanced";
  backend = "gemma12";
  ollama_model = "qwen3-vl:8b";
  recommended_memory_gib = 16;
  observed_cold_seconds = 87;
  observed_peak_gib = some 112;
  review_confidence = 750000;
  quarantine_confidence = 850000;
  direct_trash_allowed = false;
  quality_notice =
      "A balanced profile, currently available through MLX on Apple Silicon Macs. For now, it uses Quarantine only.";
  mlx_cache_directory = some "models--mlx-community--gemma-4-12B-it-qat-4bit";
}
model_spec LocalModelProfile.gemma26 = record {
  profile = LocalModelProfile.gemma26;
  display_name = "Gemma 26B-A4B · Recommended";
  tier = "Recommended";
  backend = "gemma26";
  ollama_model = "qwen3-vl:8b";
  recommended_memory_gib = 24;
  observed_cold_seconds = 97;
  observed_peak_gib = some 147;
  review_confidence = 700000;
  quarantine_confidence = 800000;
  direct_trash_allowed = true;
  quality_notice =
      "Provisionally recommended by the local benchmarks: higher observed quality, with greater memory use.";
  mlx_cache_directory = some "models--mlx-community--gemma-4-26B-A4B-it-heretic-4bit";
}

-- `.replace(":", "-")`
unfoldable pub dashed : String → String
dashed String.[] = ""
dashed (String.◌∷◌ c s) =
    if str_eq (String.◌∷◌ c "") ":" then "-" <> dashed s else String.◌∷◌ c (dashed s)

abbrev pub shadow_policy_version : String
shadow_policy_version = "policy-v2"

-- `scan_profile_for_model`
unfoldable pub scan_profile_for_model : LocalModelProfile → String
scan_profile_for_model profile =
    let spec : LocalModelSpec = model_spec profile in
    (if str_eq spec.backend "ollama" then dashed spec.ollama_model else spec.backend)
    <> ("-" <> shadow_policy_version)

-- `profile_for_backend`
unfoldable pub profile_for_backend : String → String → Result (Option LocalModelProfile)
profile_for_backend backend ollama_model =
    if str_eq backend "ollama"
    then (if str_eq ollama_model (model_spec LocalModelProfile.qwen8).ollama_model
        then ok (some LocalModelProfile.qwen8)
        else raise (value_error "Ollama model is not allowed by the InboxLume profile"))
    else if str_eq backend "gemma12"
    then ok (some LocalModelProfile.gemma12)
    else if str_eq backend "gemma26"
    then ok (some LocalModelProfile.gemma26)
    else if str_eq backend "heuristic"
    then ok none
    else raise (value_error "local backend is not allowed")

abbrev pub allows_direct_trash : Option LocalModelProfile → Bool
allows_direct_trash none = false
allows_direct_trash (some profile) = (model_spec profile).direct_trash_allowed

-- `require_direct_trash_model`
unfoldable pub require_direct_trash_model : String → String → Result (Unit {0})
require_direct_trash_model backend ollama_model = do
  profile ← profile_for_backend backend ollama_model
  require (allows_direct_trash profile)
      "il profilo selezionato usa solo la Quarantena per sicurezza; il Cestino diretto richiede il profilo Gemma 26B autorizzato"

-- `sum(calibration.values())`, with counts of answers
unfoldable pub sum_values : List (String × ℕ) → ℕ
sum_values [] = 0
sum_values ((_, value) ∷ rows) = value + sum_values rows

-- `calibration.get(key, 0)`
unfoldable pub count_of : String → List (String × ℕ) → ℕ
count_of key [] = 0
count_of key ((other, value) ∷ rows) =
    let later = count_of key rows in if str_eq key other then value else later

-- `require_direct_trash_authority`
unfoldable pub require_direct_trash_authority :
    String → String → List (String × ℕ) → Result (Unit {0})
require_direct_trash_authority backend ollama_model calibration = do
  require_direct_trash_model backend ollama_model
  require
      (leb 40 (sum_values calibration)
        && (leb 3 (count_of "keep" calibration) && leb 20 (count_of "dont_keep" calibration)))
      "il Cestino diretto richiede la calibrazione iniziale completa"
