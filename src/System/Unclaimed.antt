-- ===== src/System/Unclaimed.antt =====
-- Where a tunnel without the controller's finalizer can come from.
use mathlib.Core.List.{Memᴰ}
use mathlib.Core.Bool.{true≢false}
use x_cluster_link.Base.{
  String, ◌≡◌, ◌⊎◌, refl, sym, ap, ◌∙◌, true, false, inl, inr, contains_string, List,
}
use x_cluster_link.Base.GoMap.{Entries}
use x_cluster_link.Objects.{ObjectKey, VpcNatTunnel}
use x_cluster_link.Kube.{Kube}
use x_cluster_link.NatTunnel.Handlers.{finalizer}
use x_cluster_link.System.Keeps.{Gives}
use x_cluster_link.System.Rules.{TunnelFrom}

abbrev pub IsFree : VpcNatTunnel → Type 0
IsFree t = contains_string t.metadata.finalizers finalizer ≡ false

-- A tunnel that the cluster reads out, to a Get or in a list.
abbrev pub IsRead : (K : Kube) → VpcNatTunnel → Type 0
IsRead K t =
    ((key : ObjectKey) × Gives (K.get_tunnel key) t)
    ⊎ ((selector : Entries) × (ts : List VpcNatTunnel) × Gives (K.list_tunnels "" selector) ts
        × Memᴰ t ts)

-- What the server answers to accepted writes. An update is answered with the finalizers that were sent.
-- A status update is answered with the metadata that the server has stored, which is that of the object
-- as it was answered before: a write over an object that has changed since is refused.
pub record KeepsMetadata (K : Kube) : Type 0 where
  pub update :
      (x t : VpcNatTunnel)
      → Gives (K.update_tunnel x) t
      → t.metadata.finalizers ≡ x.metadata.finalizers
  pub update_status :
      (x x' t : VpcNatTunnel)
      → TunnelFrom K x
      → x'.metadata ≡ x.metadata
      → Gives (K.update_tunnel_status x') t
      → t.metadata ≡ x.metadata

-- A tunnel that the cluster reads out without the finalizer, under the name of `t`.
abbrev pub ReadFree : (K : Kube) → VpcNatTunnel → Type 0
ReadFree K t =
    (r : VpcNatTunnel) × IsRead K r
    × IsFree r
    × (t.metadata.name ≡ r.metadata.name)
    × (t.metadata.namespace ≡ r.metadata.namespace)

module _ (K : Kube)
    (adds : (fs : List String) (f : String) → contains_string (K.add_finalizer fs f) f ≡ true)
    (server : KeepsMetadata K) where
  -- Only what is read out can be without the finalizer.
  pub TunnelFrom-ReadFree : (t : VpcNatTunnel) → TunnelFrom K t → IsFree t → ReadFree K t
  TunnelFrom-ReadFree t (TunnelFrom.fetched key g) free = (t, inl (key, g), free, refl, refl)
  TunnelFrom-ReadFree t (TunnelFrom.listed selector ts g m) free =
      (t, inr (selector, ts, g, m), free, refl, refl)
  TunnelFrom-ReadFree t (TunnelFrom.stored x from g) free = absurd (
      true≢false (
        sym (adds x.metadata.finalizers finalizer)
        ∙ ap (λ fs. contains_string fs finalizer) (sym (server.update _ t g))
        ∙ free))
  TunnelFrom-ReadFree t (TunnelFrom.status_stored x x' from same g) free =
      let kept = server.update_status x x' t from same g in
      let (r, read, r_free, name, namespace) =
        TunnelFrom-ReadFree x from
          (ap (λ m. contains_string m.finalizers finalizer) (sym kept) ∙ free) in
      (r, read, r_free, ap (λ m. m.name) kept ∙ name, ap (λ m. m.namespace) kept ∙ namespace)
