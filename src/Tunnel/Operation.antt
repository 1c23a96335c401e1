-- ===== src/Tunnel/Operation.antt =====
-- internal/tunnel/interface.go
use x_cluster_link.Base.{String}

-- The interface's two methods, of one tunnel.
pub record TunnelOperation : Type 0 where
  pub create_cmd : String
  pub delete_cmd : String
