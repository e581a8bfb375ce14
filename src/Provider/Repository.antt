-- ===== src/Provider/Repository.antt =====
-- What the selection of provider/scheduling.go asks of the database and of the credentials: the
-- interface Repository of provider/service.go, and selectedAccount behind it.
use n2api.Base.{ℕ, String, Bool, Option, List, nat_eq, string_eq, ℤ, pos, int_eq}
use n2api.Provider.Account.{Account, AccountModel}
use n2api.Provider.Chain.{PoolLookup, SelectionError, Result}
use n2api.Provider.Sticky.{Binding}

-- The fields of SelectedAccount that say who was selected and how.
pub record SelectedAccount : Type 0 where
  pub account_id : ℤ
  pub authorization_token : String
  pub routing_pool_id : ℤ
  pub routing_pool_name : String
  pub routing_pool_fallback_depth : ℕ
  pub routing_pool_fallback_chain : String
  pub routing_pool_error : String

-- SelectedAccount{}
abbrev pub no_account : SelectedAccount
no_account = record {
  account_id = pos 0;
  authorization_token = "";
  routing_pool_id = pos 0;
  routing_pool_name = "";
  routing_pool_fallback_depth = 0;
  routing_pool_fallback_chain = "";
  routing_pool_error = "";
}

-- Methods on a state; those that write return the new state. The provider's name and the context
-- of a call are left out.
pub record Repository (S : Type 0) : Type 0 where
  pub find_routing_pool : S → ℤ → PoolLookup
  -- whether the repository implements EndpointAwareRepository
  pub endpoint_aware : Bool
  pub list_accounts_for_routing_pool_and_endpoint :
      S → ℤ → String → String → List ℤ → ℕ → Result (List Account)
  pub list_accounts_for_routing_pool : S → ℤ → String → List ℤ → ℕ → Result (List Account)
  pub list_account_models_for_accounts : S → List ℤ → Result (ℤ → List AccountModel)
  pub routing_pool_has_accounts : S → ℤ → Result Bool
  pub find_session_binding_in_routing_pool : S → ℤ → String → String → Binding
  pub upsert_session_binding_in_routing_pool :
      S → ℤ → String → String → ℤ → S × Option SelectionError
  pub record_account_status :
      S → ℤ → String → String → ℕ → Option ℕ → Option ℕ → S × Option SelectionError
  pub mark_account_error : S → ℤ → String → ℕ → S × Option SelectionError
  -- selectedAccount: the credentials of an account, refreshed where they must be
  pub selected_account : S → Account → S × Result SelectedAccount
  -- err.Error()
  pub error_text : SelectionError → String
