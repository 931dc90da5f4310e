-- ===== src/Disklib/ErrorCodes/Mount.antt =====
-- The constants of pkg/disklib/gvddk_errors.go for mounted disks and the network.
use virtual_disks.Base.{ℕ, List, [], ◌∷◌, String}

abbrev pub fuse_mnt_errors : List (String × ℕ)
fuse_mnt_errors =
    ("VIX_E_MNTAPI_MOUNTPT_NOT_FOUND", 24000)
    ∷ ("VIX_E_MNTAPI_MOUNTPT_IN_USE", 24001)
    ∷ ("VIX_E_MNTAPI_DISK_NOT_FOUND", 24002)
    ∷ ("VIX_E_MNTAPI_DISK_NOT_MOUNTED", 24003)
    ∷ ("VIX_E_MNTAPI_DISK_IS_MOUNTED", 24004)
    ∷ ("VIX_E_MNTAPI_DISK_NOT_SAFE", 24005)
    ∷ ("VIX_E_MNTAPI_DISK_CANT_OPEN", 24006)
    ∷ ("VIX_E_MNTAPI_CANT_READ_PARTS", 24007)
    ∷ ("VIX_E_MNTAPI_UMOUNT_APP_NOT_FOUND", 24008)
    ∷ ("VIX_E_MNTAPI_UMOUNT", 24009)
    ∷ ("VIX_E_MNTAPI_NO_MOUNTABLE_PARTITONS", 24010)
    ∷ ("VIX_E_MNTAPI_PARTITION_RANGE", 24011)
    ∷ ("VIX_E_MNTAPI_PERM", 24012)
    ∷ ("VIX_E_MNTAPI_DICT", 24013)
    ∷ ("VIX_E_MNTAPI_DICT_LOCKED", 24014)
    ∷ ("VIX_E_MNTAPI_OPEN_HANDLES", 24015)
    ∷ ("VIX_E_MNTAPI_CANT_MAKE_VAR_DIR", 24016)
    ∷ ("VIX_E_MNTAPI_NO_ROOT", 24017)
    ∷ ("VIX_E_MNTAPI_LOOP_FAILED", 24018)
    ∷ ("VIX_E_MNTAPI_DAEMON", 24019)
    ∷ ("VIX_E_MNTAPI_INTERNAL", 24020)
    ∷ ("VIX_E_MNTAPI_SYSTEM", 24021)
    ∷ ("VIX_E_MNTAPI_NO_CONNECTION_DETAILS", 24022)
    ∷ []

abbrev pub mntapi_errors : List (String × ℕ)
mntapi_errors =
    ("VIX_E_MNTAPI_INCOMPATIBLE_VERSION", 24300)
    ∷ ("VIX_E_MNTAPI_OS_ERROR", 24301)
    ∷ ("VIX_E_MNTAPI_DRIVE_LETTER_IN_USE", 24302)
    ∷ ("VIX_E_MNTAPI_DRIVE_LETTER_ALREADY_ASSIGNED", 24303)
    ∷ ("VIX_E_MNTAPI_VOLUME_NOT_MOUNTED", 24304)
    ∷ ("VIX_E_MNTAPI_VOLUME_ALREADY_MOUNTED", 24305)
    ∷ ("VIX_E_MNTAPI_FORMAT_FAILURE", 24306)
    ∷ ("VIX_E_MNTAPI_NO_DRIVER", 24307)
    ∷ ("VIX_E_MNTAPI_ALREADY_OPENED", 24308)
    ∷ ("VIX_E_MNTAPI_ITEM_NOT_FOUND", 24309)
    ∷ ("VIX_E_MNTAPI_UNSUPPROTED_BOOT_LOADER", 24310)
    ∷ ("VIX_E_MNTAPI_UNSUPPROTED_OS", 24311)
    ∷ ("VIX_E_MNTAPI_CODECONVERSION", 24312)
    ∷ ("VIX_E_MNTAPI_REGWRITE_ERROR", 24313)
    ∷ ("VIX_E_MNTAPI_UNSUPPORTED_FT_VOLUME", 24314)
    ∷ ("VIX_E_MNTAPI_PARTITION_NOT_FOUND", 24315)
    ∷ ("VIX_E_MNTAPI_PUTFILE_ERROR", 24316)
    ∷ ("VIX_E_MNTAPI_GETFILE_ERROR", 24317)
    ∷ ("VIX_E_MNTAPI_REG_NOT_OPENED", 24318)
    ∷ ("VIX_E_MNTAPI_REGDELKEY_ERROR", 24319)
    ∷ ("VIX_E_MNTAPI_CREATE_PARTITIONTABLE_ERROR", 24320)
    ∷ ("VIX_E_MNTAPI_OPEN_FAILURE", 24321)
    ∷ ("VIX_E_MNTAPI_VOLUME_NOT_WRITABLE", 24322)
    ∷ []

abbrev pub async_success : List (String × ℕ)
async_success = ("VIX_ASYNC", 25000) ∷ []

abbrev pub async_errors : List (String × ℕ)
async_errors = ("VIX_E_ASYNC_MIXEDMODE_UNSUPPORTED", 26000) ∷ []

abbrev pub network_errors : List (String × ℕ)
network_errors =
    ("VIX_E_NET_HTTP_UNSUPPORTED_PROTOCOL", 30001)
    ∷ ("VIX_E_NET_HTTP_URL_MALFORMAT", 30003)
    ∷ ("VIX_E_NET_HTTP_COULDNT_RESOLVE_PROXY", 30005)
    ∷ ("VIX_E_NET_HTTP_COULDNT_RESOLVE_HOST", 30006)
    ∷ ("VIX_E_NET_HTTP_COULDNT_CONNECT", 30007)
    ∷ ("VIX_E_NET_HTTP_HTTP_RETURNED_ERROR", 30022)
    ∷ ("VIX_E_NET_HTTP_OPERATION_TIMEDOUT", 30028)
    ∷ ("VIX_E_NET_HTTP_SSL_CONNECT_ERROR", 30035)
    ∷ ("VIX_E_NET_HTTP_TOO_MANY_REDIRECTS", 30047)
    ∷ ("VIX_E_NET_HTTP_TRANSFER", 30200)
    ∷ ("VIX_E_NET_HTTP_SSL_SECURITY", 30201)
    ∷ ("VIX_E_NET_HTTP_GENERIC", 30202)
    ∷ []
