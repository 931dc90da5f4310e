-- ===== src/Disklib/ErrorCodes/Disk.antt =====
-- The constants of pkg/disklib/gvddk_errors.go for disks, cryptography and guests.
use virtual_disks.Base.{ℕ, List, [], ◌∷◌, String}

abbrev pub disklib_errors : List (String × ℕ)
disklib_errors =
    ("VIX_E_DISK_INVAL", 16000)
    ∷ ("VIX_E_DISK_NOINIT", 16001)
    ∷ ("VIX_E_DISK_NOIO", 16002)
    ∷ ("VIX_E_DISK_PARTIALCHAIN", 16003)
    ∷ ("VIX_E_DISK_NEEDSREPAIR", 16006)
    ∷ ("VIX_E_DISK_OUTOFRANGE", 16007)
    ∷ ("VIX_E_DISK_CID_MISMATCH", 16008)
    ∷ ("VIX_E_DISK_CANTSHRINK", 16009)
    ∷ ("VIX_E_DISK_PARTMISMATCH", 16010)
    ∷ ("VIX_E_DISK_UNSUPPORTEDDISKVERSION", 16011)
    ∷ ("VIX_E_DISK_OPENPARENT", 16012)
    ∷ ("VIX_E_DISK_NOTSUPPORTED", 16013)
    ∷ ("VIX_E_DISK_NEEDKEY", 16014)
    ∷ ("VIX_E_DISK_NOKEYOVERRIDE", 16015)
    ∷ ("VIX_E_DISK_NOTENCRYPTED", 16016)
    ∷ ("VIX_E_DISK_NOKEY", 16017)
    ∷ ("VIX_E_DISK_INVALIDPARTITIONTABLE", 16018)
    ∷ ("VIX_E_DISK_NOTNORMAL", 16019)
    ∷ ("VIX_E_DISK_NOTENCDESC", 16020)
    ∷ ("VIX_E_DISK_NEEDVMFS", 16022)
    ∷ ("VIX_E_DISK_RAWTOOBIG", 16024)
    ∷ ("VIX_E_DISK_TOOMANYOPENFILES", 16027)
    ∷ ("VIX_E_DISK_TOOMANYREDO", 16028)
    ∷ ("VIX_E_DISK_RAWTOOSMALL", 16029)
    ∷ ("VIX_E_DISK_INVALIDCHAIN", 16030)
    ∷ ("VIX_E_DISK_KEY_NOTFOUND", 16052)
    ∷ ("VIX_E_DISK_SUBSYSTEM_INIT_FAIL", 16053)
    ∷ ("VIX_E_DISK_INVALID_CONNECTION", 16054)
    ∷ ("VIX_E_DISK_ENCODING", 16061)
    ∷ ("VIX_E_DISK_CANTREPAIR", 16062)
    ∷ ("VIX_E_DISK_INVALIDDISK", 16063)
    ∷ ("VIX_E_DISK_NOLICENSE", 16064)
    ∷ ("VIX_E_DISK_NODEVICE", 16065)
    ∷ ("VIX_E_DISK_UNSUPPORTEDDEVICE", 16066)
    ∷ ("VIX_E_DISK_CAPACITY_MISMATCH", 16067)
    ∷ ("VIX_E_DISK_PARENT_NOTALLOWED", 16068)
    ∷ ("VIX_E_DISK_ATTACH_ROOTLINK", 16069)
    ∷ []

abbrev pub crypto_errors : List (String × ℕ)
crypto_errors =
    ("VIX_E_CRYPTO_UNKNOWN_ALGORITHM", 17000)
    ∷ ("VIX_E_CRYPTO_BAD_BUFFER_SIZE", 17001)
    ∷ ("VIX_E_CRYPTO_INVALID_OPERATION", 17002)
    ∷ ("VIX_E_CRYPTO_RANDOM_DEVICE", 17003)
    ∷ ("VIX_E_CRYPTO_NEED_PASSWORD", 17004)
    ∷ ("VIX_E_CRYPTO_BAD_PASSWORD", 17005)
    ∷ ("VIX_E_CRYPTO_NOT_IN_DICTIONARY", 17006)
    ∷ ("VIX_E_CRYPTO_NO_CRYPTO", 17007)
    ∷ ("VIX_E_CRYPTO_ERROR", 17008)
    ∷ ("VIX_E_CRYPTO_BAD_FORMAT", 17009)
    ∷ ("VIX_E_CRYPTO_LOCKED", 17010)
    ∷ ("VIX_E_CRYPTO_EMPTY", 17011)
    ∷ ("VIX_E_CRYPTO_KEYSAFE_LOCATOR", 17012)
    ∷ []

abbrev pub remoting_errors : List (String × ℕ)
remoting_errors =
    ("VIX_E_CANNOT_CONNECT_TO_HOST", 18000)
    ∷ ("VIX_E_NOT_FOR_REMOTE_HOST", 18001)
    ∷ ("VIX_E_INVALID_HOSTNAME_SPECIFICATION", 18002)
    ∷ []

abbrev pub screen_capture_errors : List (String × ℕ)
screen_capture_errors =
    ("VIX_E_SCREEN_CAPTURE_ERROR", 19000)
    ∷ ("VIX_E_SCREEN_CAPTURE_BAD_FORMAT", 19001)
    ∷ ("VIX_E_SCREEN_CAPTURE_COMPRESSION_FAIL", 19002)
    ∷ ("VIX_E_SCREEN_CAPTURE_LARGE_DATA", 19003)
    ∷ []

abbrev pub guest_errors : List (String × ℕ)
guest_errors =
    ("VIX_E_GUEST_VOLUMES_NOT_FROZEN", 20000)
    ∷ ("VIX_E_NOT_A_FILE", 20001)
    ∷ ("VIX_E_NOT_A_DIRECTORY", 20002)
    ∷ ("VIX_E_NO_SUCH_PROCESS", 20003)
    ∷ ("VIX_E_FILE_NAME_TOO_LONG", 20004)
    ∷ ("VIX_E_OPERATION_DISABLED", 20005)
    ∷ []

abbrev pub tools_errors : List (String × ℕ)
tools_errors =
    ("VIX_E_TOOLS_INSTALL_NO_IMAGE", 21000)
    ∷ ("VIX_E_TOOLS_INSTALL_IMAGE_INACCESIBLE", 21001)
    ∷ ("VIX_E_TOOLS_INSTALL_NO_DEVICE", 21002)
    ∷ ("VIX_E_TOOLS_INSTALL_DEVICE_NOT_CONNECTED", 21003)
    ∷ ("VIX_E_TOOLS_INSTALL_CANCELLED", 21004)
    ∷ ("VIX_E_TOOLS_INSTALL_INIT_FAILED", 21005)
    ∷ ("VIX_E_TOOLS_INSTALL_AUTO_NOT_SUPPORTED", 21006)
    ∷ ("VIX_E_TOOLS_INSTALL_GUEST_NOT_READY", 21007)
    ∷ ("VIX_E_TOOLS_INSTALL_SIG_CHECK_FAILED", 21008)
    ∷ ("VIX_E_TOOLS_INSTALL_ERROR", 21009)
    ∷ ("VIX_E_TOOLS_INSTALL_ALREADY_UP_TO_DATE", 21010)
    ∷ ("VIX_E_TOOLS_INSTALL_IN_PROGRESS", 21011)
    ∷ ("VIX_E_TOOLS_INSTALL_IMAGE_COPY_FAILED", 21012)
    ∷ []

abbrev pub wrapper_errors : List (String × ℕ)
wrapper_errors =
    ("VIX_E_WRAPPER_WORKSTATION_NOT_INSTALLED", 22001)
    ∷ ("VIX_E_WRAPPER_VERSION_NOT_FOUND", 22002)
    ∷ ("VIX_E_WRAPPER_SERVICEPROVIDER_NOT_FOUND", 22003)
    ∷ ("VIX_E_WRAPPER_PLAYER_NOT_INSTALLED", 22004)
    ∷ ("VIX_E_WRAPPER_RUNTIME_NOT_INSTALLED", 22005)
    ∷ ("VIX_E_WRAPPER_MULTIPLE_SERVICEPROVIDERS", 22006)
    ∷ []
