-- ===== src/Kube.antt =====
-- The parts of the Kubernetes objects that the controllers and the webhook read or write.
-- Numbers of ports are those that the API server accepts, 1 to 65535; `int_val` is 0 if unset.
pub mod Client
pub mod Calls
pub mod Cluster
pub mod Reports
pub mod Within
pub mod Runs
pub mod Creates
pub mod Beside
pub mod Shared
pub mod Race
pub mod Turns
pub mod Memory
use netmaker_k8s_ops.Base.{ℕ, String, Bool, Option, List, Dict, Labels}

-- `types.NamespacedName`
pub record Key : Type 0 where
  pub name : String
  pub namespace : String

pub record SecretKeySelector : Type 0 where
  pub name : String
  pub key : String

pub record EnvVar : Type 0 where
  pub name : String
  pub value : String
  pub value_from : Option SecretKeySelector

pub record VolumeMount : Type 0 where
  pub name : String
  pub mount_path : String

pub record ContainerPort : Type 0 where
  pub name : String
  pub container_port : ℕ
  pub protocol : String

pub record IntOrString : Type 0 where
  pub int_val : ℕ
  pub str_val : String

pub record ServicePort : Type 0 where
  pub name : String
  pub port : ℕ
  pub target_port : IntOrString
  pub protocol : String

pub record Resources : Type 0 where
  pub limits : Dict String
  pub requests : Dict String

pub record Probe : Type 0 where
  pub command : List String
  pub initial_delay_seconds : ℕ
  pub period_seconds : ℕ
  pub timeout_seconds : ℕ
  pub failure_threshold : ℕ

pub record Container : Type 0 where
  pub name : String
  pub image : String
  pub command : List String
  pub ports : List ContainerPort
  pub env : List EnvVar
  pub volume_mounts : List VolumeMount
  pub capabilities : List String
  pub resources : Resources
  pub readiness_probe : Option Probe

-- `other` stands for the sources that the program does not build.
pub data VolumeSource : Type 0 where
  empty_dir : String → VolumeSource
  persistent_volume_claim : String → Bool → VolumeSource
  other : String → VolumeSource

pub record Volume : Type 0 where
  pub name : String
  pub source : VolumeSource

-- `untouched` is the rest of the specification, which the program copies.
pub record PodSpec : Type 0 where
  pub containers : List Container
  pub volumes : List Volume
  pub untouched : String

pub record OwnerReference : Type 0 where
  pub api_version : String
  pub kind : String
  pub name : String
  pub uid : String

pub record Pod : Type 0 where
  pub name : String
  pub namespace : String
  pub uid : String
  pub labels : Labels
  pub annotations : Labels
  pub owner_references : List OwnerReference
  pub spec : PodSpec
  pub phase : String
  pub pod_ip : String

pub record Service : Type 0 where
  pub name : String
  pub namespace : String
  pub uid : String
  pub annotations : Labels
  pub ports : List ServicePort
  pub cluster_ip : String

-- The data of a secret, read as text.
pub record Secret : Type 0 where
  pub entries : Dict String

pub record ObjectReference : Type 0 where
  pub kind : String
  pub namespace : String
  pub name : String
  pub uid : String

pub record EndpointAddress : Type 0 where
  pub ip : String
  pub target_ref : ObjectReference

pub record EndpointPort : Type 0 where
  pub name : String
  pub port : ℕ
  pub protocol : String

pub record EndpointSubset : Type 0 where
  pub addresses : List EndpointAddress
  pub ports : List EndpointPort

pub record Endpoints : Type 0 where
  pub name : String
  pub namespace : String
  pub subsets : List EndpointSubset

-- A `PersistentVolumeClaim`; `storage` is the requested quantity.
pub record VolumeClaim : Type 0 where
  pub name : String
  pub namespace : String
  pub labels : Labels
  pub access_modes : List String
  pub storage : String
  pub storage_class_name : Option String
