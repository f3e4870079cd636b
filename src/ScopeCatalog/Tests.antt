-- ===== src/ScopeCatalog/Tests.antt =====
-- A summary of a known scope and an unknown one.
use orbi_pay_gateway_v.Prelude.{String, List, [], ◌∷◌}

abbrev scopes : List String
scopes = "payments:create" ∷ "cards:create" ∷ []
