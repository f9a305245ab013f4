-- ===== src/Server/Web/Lists.antt =====
-- server/web.go, getClients and getStats: the list of clients is sorted and complete, and agrees with the
-- statistics.
use mpfpv.Base.{ℕ, suc, if◌then◌else◌, List, [], ◌∷◌}
use mpfpv.Server.State.{Server}
use mpfpv.Server.Web.{ClientInfo}

abbrev pub count_online : List ClientInfo → ℕ
count_online [] = 0
count_online (x ∷ xs) = let rest = count_online xs in if x.online then suc rest else rest
