-- ===== src/Disklib/ErrorCodes/Vm.antt =====
-- The constants of pkg/disklib/gvddk_errors.go for virtual machines, their snapshots and hosts.
use virtual_disks.Base.{ℕ, List, [], ◌∷◌, String}

abbrev pub general_errors : List (String × ℕ)
general_errors =
    ("VIX_E_FAIL", 1)
    ∷ ("VIX_E_OUT_OF_MEMORY", 2)
    ∷ ("VIX_E_INVALID_ARG", 3)
    ∷ ("VIX_E_FILE_NOT_FOUND", 4)
    ∷ ("VIX_E_OBJECT_IS_BUSY", 5)
    ∷ ("VIX_E_NOT_SUPPORTED", 6)
    ∷ ("VIX_E_FILE_ERROR", 7)
    ∷ ("VIX_E_DISK_FULL", 8)
    ∷ ("VIX_E_INCORRECT_FILE_TYPE", 9)
    ∷ ("VIX_E_CANCELLED", 10)
    ∷ ("VIX_E_FILE_READ_ONLY", 11)
    ∷ ("VIX_E_FILE_ALREADY_EXISTS", 12)
    ∷ ("VIX_E_FILE_ACCESS_ERROR", 13)
    ∷ ("VIX_E_REQUIRES_LARGE_FILES", 14)
    ∷ ("VIX_E_FILE_ALREADY_LOCKED", 15)
    ∷ ("VIX_E_VMDB", 16)
    ∷ ("VIX_E_NOT_SUPPORTED_ON_REMOTE_OBJECT", 20)
    ∷ ("VIX_E_FILE_TOO_BIG", 21)
    ∷ ("VIX_E_FILE_NAME_INVALID", 22)
    ∷ ("VIX_E_ALREADY_EXISTS", 23)
    ∷ ("VIX_E_BUFFER_TOOSMALL", 24)
    ∷ ("VIX_E_OBJECT_NOT_FOUND", 25)
    ∷ ("VIX_E_HOST_NOT_CONNECTED", 26)
    ∷ ("VIX_E_INVALID_UTF8_STRING", 27)
    ∷ ("VIX_E_OPERATION_ALREADY_IN_PROGRESS", 31)
    ∷ ("VIX_E_UNFINISHED_JOB", 29)
    ∷ ("VIX_E_NEED_KEY", 30)
    ∷ ("VIX_E_LICENSE", 32)
    ∷ ("VIX_E_VM_HOST_DISCONNECTED", 34)
    ∷ ("VIX_E_AUTHENTICATION_FAIL", 35)
    ∷ ("VIX_E_HOST_CONNECTION_LOST", 36)
    ∷ ("VIX_E_DUPLICATE_NAME", 41)
    ∷ ("VIX_E_ARGUMENT_TOO_BIG", 44)
    ∷ []

abbrev pub handle_errors : List (String × ℕ)
handle_errors =
    ("VIX_E_INVALID_HANDLE", 1000)
    ∷ ("VIX_E_NOT_SUPPORTED_ON_HANDLE_TYPE", 1001)
    ∷ ("VIX_E_TOO_MANY_HANDLES", 1002)
    ∷ []

abbrev pub xml_errors : List (String × ℕ)
xml_errors =
    ("VIX_E_NOT_FOUND", 2000) ∷ ("VIX_E_TYPE_MISMATCH", 2001) ∷ ("VIX_E_INVALID_XML", 2002) ∷ []

abbrev pub vm_control_errors : List (String × ℕ)
vm_control_errors =
    ("VIX_E_TIMEOUT_WAITING_FOR_TOOLS", 3000)
    ∷ ("VIX_E_UNRECOGNIZED_COMMAND", 3001)
    ∷ ("VIX_E_OP_NOT_SUPPORTED_ON_GUEST", 3003)
    ∷ ("VIX_E_PROGRAM_NOT_STARTED", 3004)
    ∷ ("VIX_E_CANNOT_START_READ_ONLY_VM", 3005)
    ∷ ("VIX_E_VM_NOT_RUNNING", 3006)
    ∷ ("VIX_E_VM_IS_RUNNING", 3007)
    ∷ ("VIX_E_CANNOT_CONNECT_TO_VM", 3008)
    ∷ ("VIX_E_POWEROP_SCRIPTS_NOT_AVAILABLE", 3009)
    ∷ ("VIX_E_NO_GUEST_OS_INSTALLED", 3010)
    ∷ ("VIX_E_VM_INSUFFICIENT_HOST_MEMORY", 3011)
    ∷ ("VIX_E_SUSPEND_ERROR", 3012)
    ∷ ("VIX_E_VM_NOT_ENOUGH_CPUS", 3013)
    ∷ ("VIX_E_HOST_USER_PERMISSIONS", 3014)
    ∷ ("VIX_E_GUEST_USER_PERMISSIONS", 3015)
    ∷ ("VIX_E_TOOLS_NOT_RUNNING", 3016)
    ∷ ("VIX_E_GUEST_OPERATIONS_PROHIBITED", 3017)
    ∷ ("VIX_E_ANON_GUEST_OPERATIONS_PROHIBITED", 3018)
    ∷ ("VIX_E_ROOT_GUEST_OPERATIONS_PROHIBITED", 3019)
    ∷ ("VIX_E_MISSING_ANON_GUEST_ACCOUNT", 3023)
    ∷ ("VIX_E_CANNOT_AUTHENTICATE_WITH_GUEST", 3024)
    ∷ ("VIX_E_UNRECOGNIZED_COMMAND_IN_GUEST", 3025)
    ∷ ("VIX_E_CONSOLE_GUEST_OPERATIONS_PROHIBITED", 3026)
    ∷ ("VIX_E_MUST_BE_CONSOLE_USER", 3027)
    ∷ ("VIX_E_VMX_MSG_DIALOG_AND_NO_UI", 3028)
    ∷ ("VIX_E_OPERATION_NOT_ALLOWED_FOR_LOGIN_TYPE", 3031)
    ∷ ("VIX_E_LOGIN_TYPE_NOT_SUPPORTED", 3032)
    ∷ ("VIX_E_EMPTY_PASSWORD_NOT_ALLOWED_IN_GUEST", 3033)
    ∷ ("VIX_E_INTERACTIVE_SESSION_NOT_PRESENT", 3034)
    ∷ ("VIX_E_INTERACTIVE_SESSION_USER_MISMATCH", 3035)
    ∷ ("VIX_E_CANNOT_POWER_ON_VM", 3041)
    ∷ ("VIX_E_NO_DISPLAY_SERVER", 3043)
    ∷ ("VIX_E_TOO_MANY_LOGONS", 3046)
    ∷ ("VIX_E_INVALID_AUTHENTICATION_SESSION", 3047)
    ∷ []

abbrev pub vm_errors : List (String × ℕ)
vm_errors =
    ("VIX_E_VM_NOT_FOUND", 4000)
    ∷ ("VIX_E_NOT_SUPPORTED_FOR_VM_VERSION", 4001)
    ∷ ("VIX_E_CANNOT_READ_VM_CONFIG", 4002)
    ∷ ("VIX_E_TEMPLATE_VM", 4003)
    ∷ ("VIX_E_VM_ALREADY_LOADED", 4004)
    ∷ ("VIX_E_VM_ALREADY_UP_TO_DATE", 4006)
    ∷ ("VIX_E_VM_UNSUPPORTED_GUEST", 4011)
    ∷ []

abbrev pub property_errors : List (String × ℕ)
property_errors =
    ("VIX_E_UNRECOGNIZED_PROPERTY", 6000)
    ∷ ("VIX_E_INVALID_PROPERTY_VALUE", 6001)
    ∷ ("VIX_E_READ_ONLY_PROPERTY", 6002)
    ∷ ("VIX_E_MISSING_REQUIRED_PROPERTY", 6003)
    ∷ ("VIX_E_INVALID_SERIALIZED_DATA", 6004)
    ∷ ("VIX_E_PROPERTY_TYPE_MISMATCH", 6005)
    ∷ []

abbrev pub completion_errors : List (String × ℕ)
completion_errors = ("VIX_E_BAD_VM_INDEX", 8000) ∷ []

abbrev pub message_errors : List (String × ℕ)
message_errors =
    ("VIX_E_INVALID_MESSAGE_HEADER", 10000) ∷ ("VIX_E_INVALID_MESSAGE_BODY", 10001) ∷ []

abbrev pub snapshot_errors : List (String × ℕ)
snapshot_errors =
    ("VIX_E_SNAPSHOT_INVAL", 13000)
    ∷ ("VIX_E_SNAPSHOT_DUMPER", 13001)
    ∷ ("VIX_E_SNAPSHOT_DISKLIB", 13002)
    ∷ ("VIX_E_SNAPSHOT_NOTFOUND", 13003)
    ∷ ("VIX_E_SNAPSHOT_EXISTS", 13004)
    ∷ ("VIX_E_SNAPSHOT_VERSION", 13005)
    ∷ ("VIX_E_SNAPSHOT_NOPERM", 13006)
    ∷ ("VIX_E_SNAPSHOT_CONFIG", 13007)
    ∷ ("VIX_E_SNAPSHOT_NOCHANGE", 13008)
    ∷ ("VIX_E_SNAPSHOT_CHECKPOINT", 13009)
    ∷ ("VIX_E_SNAPSHOT_LOCKED", 13010)
    ∷ ("VIX_E_SNAPSHOT_INCONSISTENT", 13011)
    ∷ ("VIX_E_SNAPSHOT_NAMETOOLONG", 13012)
    ∷ ("VIX_E_SNAPSHOT_VIXFILE", 13013)
    ∷ ("VIX_E_SNAPSHOT_DISKLOCKED", 13014)
    ∷ ("VIX_E_SNAPSHOT_DUPLICATEDDISK", 13015)
    ∷ ("VIX_E_SNAPSHOT_INDEPENDENTDISK", 13016)
    ∷ ("VIX_E_SNAPSHOT_NONUNIQUE_NAME", 13017)
    ∷ ("VIX_E_SNAPSHOT_MEMORY_ON_INDEPENDENT_DISK", 13018)
    ∷ ("VIX_E_SNAPSHOT_MAXSNAPSHOTS", 13019)
    ∷ ("VIX_E_SNAPSHOT_MIN_FREE_SPACE", 13020)
    ∷ ("VIX_E_SNAPSHOT_HIERARCHY_TOODEEP", 13021)
    ∷ ("VIX_E_SNAPSHOT_NOT_REVERTABLE", 13024)
    ∷ []

abbrev pub host_errors : List (String × ℕ)
host_errors =
    ("VIX_E_HOST_DISK_INVALID_VALUE", 14003)
    ∷ ("VIX_E_HOST_DISK_SECTORSIZE", 14004)
    ∷ ("VIX_E_HOST_FILE_ERROR_EOF", 14005)
    ∷ ("VIX_E_HOST_NETBLKDEV_HANDSHAKE", 14006)
    ∷ ("VIX_E_HOST_SOCKET_CREATION_ERROR", 14007)
    ∷ ("VIX_E_HOST_SERVER_NOT_FOUND", 14008)
    ∷ ("VIX_E_HOST_NETWORK_CONN_REFUSED", 14009)
    ∷ ("VIX_E_HOST_TCP_SOCKET_ERROR", 14010)
    ∷ ("VIX_E_HOST_TCP_CONN_LOST", 14011)
    ∷ ("VIX_E_HOST_NBD_HASHFILE_VOLUME", 14012)
    ∷ ("VIX_E_HOST_NBD_HASHFILE_INIT", 14013)
    ∷ []
