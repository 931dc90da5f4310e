-- ===== src/Vddk.antt =====
-- What the program calls and does not implement: the C library VixDiskLib that
-- pkg/disklib/gvddk_api.go and pkg/disklib/gvddk_c.c call, as a type of calls with their replies.
-- Nothing is said here of how a call answers: a `World` is a parameter of every theorem.
-- Opaque C pointers (`VixDiskLibConnection`, `VixDiskLibHandle`) are numbers. A pointer argument
-- that the program may leave `nil` is an `Option`, and a buffer that C fills is passed in and
-- comes back in the reply. `malloc` and `free` are not calls of the model.
use virtual_disks.Base.{ℕ, Bool, Option, List, String}
use virtual_disks.Base.Bytes.{Byte}

pub data SpecType : Type 0 where
  unknown vmx vstorage_object : SpecType

pub data CredType : Type 0 where
  unknown uid session_id : CredType

-- The union `creds` of `VixDiskLibConnectParams`, by the arm that was written last.
pub data Creds : Type 0 where
  unset : Creds
  uid : (user_name password : Option String) → Creds
  session_id : (cookie user_name key : Option String) → Creds

-- The C struct `VixDiskLibConnectParams`, as far as the program writes it.
pub record CConnectParams : Type 0 where
  pub spec_type : SpecType
  pub vmx_spec : Option String
  pub server_name : Option String
  pub thumb_print : Option String
  pub id : Option String
  pub datastore_mo_ref : Option String
  pub ss_id : Option String
  pub cred_type : CredType
  pub creds : Creds

-- The C struct `VixDiskLibCreateParams`.
pub record CCreateParams : Type 0 where
  pub disk_type : ℕ
  pub adapter_type : ℕ
  pub hw_version : ℕ
  pub capacity : ℕ

pub record CGeometry : Type 0 where
  pub cylinders : ℕ
  pub heads : ℕ
  pub sectors : ℕ

-- The C struct `VixDiskLibInfo`.
pub record CInfo : Type 0 where
  pub bios_geo : CGeometry
  pub phys_geo : CGeometry
  pub capacity : ℕ
  pub adapter_type : ℕ
  pub num_links : ℕ
  pub parent_file_name_hint : String
  pub uuid : String

-- The C struct `VixDiskLibBlock`, in sectors.
pub record VixDiskLibBlock : Type 0 where
  pub offset : ℕ
  pub length : ℕ

-- One call with the arguments that the program passes.
pub data Call : Type 0 where
  init_ex : (major minor : ℕ) → (lib_dir : String) → (config : Option String) → Call
  exit : Call
  allocate_connect_params : Call
  prepare_for_access end_access : CConnectParams → (identity : String) → Call
  connect : CConnectParams → Call
  connect_ex : CConnectParams → (read_only : Bool) → (snapshot_ref modes : String) → Call
  disconnect : (conn : ℕ) → Call
  cleanup : CConnectParams → (num_clean_up num_remaining : ℕ) → Call
  open_disk : (conn : ℕ) → (path : String) → (flags : ℕ) → Call
  close : (dli : ℕ) → Call
  attach : (child parent : ℕ) → Call
  check_repair : (conn : ℕ) → (file : String) → (repair : Bool) → Call
  create : (conn : ℕ) → (path : String) → CCreateParams → (progress : String) → Call
  create_child : (dli : ℕ) → (path : String) → (disk_type : ℕ) → (progress : String) → Call
  clone :
      (dst_conn : ℕ)
      → (dst : String) → (src_conn : ℕ) → (src : String) → CCreateParams
      → (progress : String) → (over_write : Bool) → Call
  grow :
      (conn : ℕ)
      → (path : String) → (capacity : ℕ) → (update_geometry : Bool) → (progress : String) → Call
  shrink defragment : (dli : ℕ) → (progress : String) → Call
  rename : (src dst : String) → Call
  unlink : (conn : ℕ) → (path : String) → Call
  space_needed_for_clone : (dli : ℕ) → (disk_type space : ℕ) → Call
  list_transport_modes : Call
  get_transport_mode : (dli : ℕ) → Call
  get_info : (dli : ℕ) → Call
  read write : (dli sector count : ℕ) → (buf : List Byte) → Call
  get_metadata_keys :
      (dli : ℕ) → (buf : Option (List Byte)) → (len : ℕ) → (required : Option ℕ) → Call
  read_metadata :
      (dli : ℕ)
      → (key : List Byte) → (buf : Option (List Byte)) → (len : ℕ) → (required : Option ℕ) → Call
  write_metadata : (dli : ℕ) → (key : List Byte) → (buf : List Byte) → Call
  query_allocated_blocks : (dli start num chunk : ℕ) → Call

-- The metadata calls fill the buffer, or store the length that they need, or neither.
pub record MetadataReply : Type 0 where
  pub code : ℕ
  pub buf : List Byte
  pub required : ℕ

-- `failed` is what the C macro `VIX_FAILED` says of the code.
pub record BlocksReply : Type 0 where
  pub failed : Bool
  pub code : ℕ
  pub blocks : List VixDiskLibBlock

abbrev pub Reply : Call → Type 0
Reply Call.exit = Unit {0}
Reply Call.allocate_connect_params = CConnectParams
Reply (Call.connect _) = ℕ × ℕ
Reply (Call.connect_ex _ _ _ _) = ℕ × ℕ
Reply (Call.open_disk _ _ _) = ℕ × ℕ
Reply (Call.space_needed_for_clone _ _ _) = ℕ × ℕ
Reply Call.list_transport_modes = String
Reply (Call.get_transport_mode _) = String
Reply (Call.get_info _) = ℕ × CInfo
Reply (Call.read _ _ _ _) = ℕ × List Byte
Reply (Call.get_metadata_keys _ _ _ _) = MetadataReply
Reply (Call.read_metadata _ _ _ _ _) = MetadataReply
Reply (Call.query_allocated_blocks _ _ _ _) = BlocksReply
Reply _ = ℕ

-- The library with the disks behind it: it answers a call and moves to its next state.
pub record World : Type 1 where
  pub State : Type 0
  pub answer : (c : Call) → State → Reply c × State
