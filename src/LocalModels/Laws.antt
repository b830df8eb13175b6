-- ===== src/LocalModels/Laws.antt =====
-- What src/inboxlume/local_models.py and src/inboxlume/direct_trash_guard.py promise together.
use inboxlume.Base.{
  ◌≡◌, refl, sym, subst, eq_iff, ◌↔◌, ℕ, true, ◌&&◌, ◌||◌, not, String, List, leb, str_eq, some, ok,
  arith, bind_ok,
}
use inboxlume.LocalModels.{
  LocalModelProfile, model_spec, profile_for_backend, require_direct_trash_model, sum_values,
  count_of, require_direct_trash_authority,
}

-- Settings select a profile of the catalogue exactly if they name its backend and, where that is Ollama,
-- its model: nothing else selects it, for no backend and model.
pub profile_for_backend_iff :
    (backend ollama_model : String) (profile : LocalModelProfile)
    → (profile_for_backend backend ollama_model ≡ ok (some profile)) ↔ (
        (str_eq backend (model_spec profile).backend
          && (not (str_eq backend "ollama")
              || str_eq ollama_model (model_spec profile).ollama_model))
        ≡ true)
unfolding profile_for_backend model_spec
profile_for_backend_iff backend ollama_model LocalModelProfile.qwen8 =
    (λ e. ground (arith, e), λ e. ground (arith, e))
profile_for_backend_iff backend ollama_model LocalModelProfile.gemma12 = (
  λ e. ground (arith, e),
  λ e.
      subst (λ b. profile_for_backend b ollama_model ≡ ok (some LocalModelProfile.gemma12))
        (sym ((eq_iff backend "gemma12").0 (ground (arith, e)))) refl,
)
profile_for_backend_iff backend ollama_model LocalModelProfile.gemma26 = (
  λ e. ground (arith, e),
  λ e.
      subst (λ b. profile_for_backend b ollama_model ≡ ok (some LocalModelProfile.gemma26))
        (sym ((eq_iff backend "gemma26").0 (ground (arith, e)))) refl,
)

require_direct_trash_model_iff :
    (backend ollama_model : String)
    → (require_direct_trash_model backend ollama_model ≡ ok tt) ↔ (str_eq backend "gemma26" ≡ true)
unfolding require_direct_trash_model profile_for_backend model_spec
require_direct_trash_model_iff backend ollama_model = (
  λ e. ground (arith, e),
  λ e.
      subst (λ b. require_direct_trash_model b ollama_model ≡ ok tt)
        (sym ((eq_iff backend "gemma26").0 e)) refl,
)

-- The trash may be used directly exactly with the backend `gemma26` and at least 40 answers, of which at
-- least 3 to keep and 20 not to keep; every other choice raises.
pub require_direct_trash_authority_iff :
    (backend ollama_model : String) (calibration : List (String × ℕ))
    → (require_direct_trash_authority backend ollama_model calibration ≡ ok tt) ↔ (
        (str_eq backend "gemma26"
          && (leb 40 (sum_values calibration)
              && (leb 3 (count_of "keep" calibration)
                  && leb 20 (count_of "dont_keep" calibration))))
        ≡ true)
unfolding require_direct_trash_authority
require_direct_trash_authority_iff backend ollama_model calibration =
    let model = require_direct_trash_model_iff backend ollama_model in
    (λ e. granted e, λ e. rw (model.1 (ground (arith, e))) (ground (arith, e)))
  where
    granted :
        require_direct_trash_authority backend ollama_model calibration ≡ ok tt
        → (str_eq backend "gemma26"
            && (leb 40 (sum_values calibration)
                && (leb 3 (count_of "keep" calibration)
                    && leb 20 (count_of "dont_keep" calibration))))
          ≡ true
    granted e =
        let first = bind_ok (require_direct_trash_model backend ollama_model) _ tt e in
        let gemma : str_eq backend "gemma26" ≡ true =
          (require_direct_trash_model_iff backend ollama_model).0 first.1 in
        ground (arith, gemma, first.2)
