-- ===== src/Kube/Log.antt =====
-- A reading of the log: the objects that were changed.
use x_cluster_link.Base.{List, [], ◌∷◌}
use x_cluster_link.Kube.Monad.{Effect, Entry, did, failed}

-- The changes to objects that the cluster accepted, newest first.
abbrev change : Effect → List Effect → List Effect
change (Effect.exec _ _ _ _) es = es
change (Effect.update_tunnel t) es = Effect.update_tunnel t ∷ es
change (Effect.update_tunnel_status t) es = Effect.update_tunnel_status t ∷ es
change (Effect.update_dns_forward d) es = Effect.update_dns_forward d ∷ es
change (Effect.update_config_map c) es = Effect.update_config_map c ∷ es
change (Effect.update_deployment d) es = Effect.update_deployment d ∷ es
change (Effect.update_vpc v) es = Effect.update_vpc v ∷ es
change (Effect.create_ex_ip x) es = Effect.create_ex_ip x ∷ es
change (Effect.update_ex_ip x) es = Effect.update_ex_ip x ∷ es
change (Effect.delete_ex_ip x) es = Effect.delete_ex_ip x ∷ es

abbrev pub changes : List Entry → List Effect
changes [] = []
changes (did e ∷ l) = change e (changes l)
changes (failed _ ∷ l) = changes l
