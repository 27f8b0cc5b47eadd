-- ===== src/Kind/Cluster.antt =====
-- The cluster that the setup connects to (`ConnectToK8sCluster` and
-- `CopyClusterToNamespace`, internal/util/k8s.go). What the client libraries and the disk answer is
-- a `ClientWorld`.
use skywalking_infra_e2e.Base.{◌>>=◌, [], Text, Result, ok}

-- Configurations and clients are values of the libraries.
pub record ClientWorld : Type 1 where
  pub Config : Type 0
  pub Clients : Type 0
  pub Dynamic : Type 0
  pub build_config : Text → Result Config
  pub new_clients : Config → Result Clients
  pub new_dynamic : Config → Result Dynamic
  pub read_file : Text → Result Text
  pub rest_config : Text → Result Config

module _ (w : ClientWorld) where
  -- `K8sClusterInfo`
  pub record ClusterInfo : Type 0 where
    pub client : w.Clients
    pub interface : w.Dynamic
    pub rest : w.Config
    pub namespace : Text

  -- `ConnectToK8sCluster`
  unfoldable pub connect_to_k8s_cluster : Text → Result ClusterInfo
  connect_to_k8s_cluster kube_config_path = do
    config ← w.build_config kube_config_path
    c ← w.new_clients config
    dc ← w.new_dynamic config
    kube_config_yaml ← w.read_file kube_config_path
    rest ← w.rest_config kube_config_yaml
    ok (record { client = c; interface = dc; rest = rest; namespace = [] })

  -- `CopyClusterToNamespace`
  unfoldable pub copy_cluster_to_namespace : ClusterInfo → Text → ClusterInfo
  copy_cluster_to_namespace c namespace = record c { namespace = namespace }
