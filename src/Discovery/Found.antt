-- ===== src/Discovery/Found.antt =====
-- What Discover of internal/discovery/discovery.go guarantees about the clusters that it returns.
use vbilling.Prelude.{◌≢◌, none}
use vbilling.Prelude.Text.{Text}
use vbilling.Discovery.{Api}

-- The API listed the workloads of the namespace.
abbrev pub Answered : Api → Text → Type 0
Answered api n = (api.stateful_sets n ≢ none) × (api.deployments n ≢ none)
