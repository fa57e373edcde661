-- ===== src/Errors.antt =====
-- The error codes that legacy_compatible/legacy_support.cpp gives names of its own on both systems.
use libcastis_heartbeat.Prelude.{◌≡◌, refl, ℤ, List, ◌++◌, ℕ}
use libcastis_heartbeat.Session.{bytes_of}

-- The macros CI_EINTR to CI_EREMOTE.
pub data CiError : Type 0 where
  ci_eintr : CiError
  ci_ebadf : CiError
  ci_eacces : CiError
  ci_efault : CiError
  ci_einval : CiError
  ci_emfile : CiError
  ci_ewouldblock : CiError
  ci_einprogress : CiError
  ci_ealready : CiError
  ci_enotsock : CiError
  ci_edestaddrreq : CiError
  ci_emsgsize : CiError
  ci_eprototype : CiError
  ci_enoprotoopt : CiError
  ci_eprotonosupport : CiError
  ci_esocktnosupport : CiError
  ci_eopnotsupp : CiError
  ci_epfnosupport : CiError
  ci_eafnosupport : CiError
  ci_eaddrinuse : CiError
  ci_eaddrnotavail : CiError
  ci_enetdown : CiError
  ci_enetunreach : CiError
  ci_enetreset : CiError
  ci_econnaborted : CiError
  ci_econnreset : CiError
  ci_enobufs : CiError
  ci_eisconn : CiError
  ci_enotconn : CiError
  ci_eshutdown : CiError
  ci_etoomanyrefs : CiError
  ci_etimedout : CiError
  ci_econnrefused : CiError
  ci_eloop : CiError
  ci_enametoolong : CiError
  ci_ehostdown : CiError
  ci_ehostunreach : CiError
  ci_enotempty : CiError
  ci_eproclim : CiError
  ci_eusers : CiError
  ci_edquot : CiError
  ci_estale : CiError
  ci_eremote : CiError

-- Their values on Windows, where `code_of` stands for the header that has the value of each name.
unfoldable pub windows_error : (List ℕ → ℤ) → CiError → ℤ
windows_error code_of ci_eintr = code_of (bytes_of "WSAEINTR")
windows_error code_of ci_ebadf = code_of (bytes_of "WSAEBADF")
windows_error code_of ci_eacces = code_of (bytes_of "WSAEACCES")
windows_error code_of ci_efault = code_of (bytes_of "WSAEFAULT")
windows_error code_of ci_einval = code_of (bytes_of "WSAEINVAL")
windows_error code_of ci_emfile = code_of (bytes_of "WSAEMFILE")
windows_error code_of ci_ewouldblock = code_of (bytes_of "WSAEWOULDBLOCK")
windows_error code_of ci_einprogress = code_of (bytes_of "WSAEINPROGRESS")
windows_error code_of ci_ealready = code_of (bytes_of "WSAEALREADY")
windows_error code_of ci_enotsock = code_of (bytes_of "WSAENOTSOCK")
windows_error code_of ci_edestaddrreq = code_of (bytes_of "WSAEDESTADDRREQ")
windows_error code_of ci_emsgsize = code_of (bytes_of "WSAEMSGSIZE")
windows_error code_of ci_eprototype = code_of (bytes_of "WSAEPROTOTYPE")
windows_error code_of ci_enoprotoopt = code_of (bytes_of "WSAENOPROTOOPT")
windows_error code_of ci_eprotonosupport = code_of (bytes_of "WSAEPROTONOSUPPORT")
windows_error code_of ci_esocktnosupport = code_of (bytes_of "WSAESOCKTNOSUPPORT")
windows_error code_of ci_eopnotsupp = code_of (bytes_of "WSAEOPNOTSUPP")
windows_error code_of ci_epfnosupport = code_of (bytes_of "WSAEPFNOSUPPORT")
windows_error code_of ci_eafnosupport = code_of (bytes_of "WSAEAFNOSUPPORT")
windows_error code_of ci_eaddrinuse = code_of (bytes_of "WSAEADDRINUSE")
windows_error code_of ci_eaddrnotavail = code_of (bytes_of "WSAEADDRNOTAVAIL")
windows_error code_of ci_enetdown = code_of (bytes_of "WSAENETDOWN")
windows_error code_of ci_enetunreach = code_of (bytes_of "WSAENETUNREACH")
windows_error code_of ci_enetreset = code_of (bytes_of "WSAENETRESET")
windows_error code_of ci_econnaborted = code_of (bytes_of "WSAECONNABORTED")
windows_error code_of ci_econnreset = code_of (bytes_of "WSAECONNRESET")
windows_error code_of ci_enobufs = code_of (bytes_of "WSAENOBUFS")
windows_error code_of ci_eisconn = code_of (bytes_of "WSAEISCONN")
windows_error code_of ci_enotconn = code_of (bytes_of "WSAENOTCONN")
windows_error code_of ci_eshutdown = code_of (bytes_of "WSAESHUTDOWN")
windows_error code_of ci_etoomanyrefs = code_of (bytes_of "WSAETOOMANYREFS")
windows_error code_of ci_etimedout = code_of (bytes_of "WSAETIMEDOUT")
windows_error code_of ci_econnrefused = code_of (bytes_of "WSAECONNREFUSED")
windows_error code_of ci_eloop = code_of (bytes_of "WSAELOOP")
windows_error code_of ci_enametoolong = code_of (bytes_of "WSAENAMETOOLONG")
windows_error code_of ci_ehostdown = code_of (bytes_of "WSAEHOSTDOWN")
windows_error code_of ci_ehostunreach = code_of (bytes_of "WSAEHOSTUNREACH")
windows_error code_of ci_enotempty = code_of (bytes_of "WSAENOTEMPTY")
windows_error code_of ci_eproclim = code_of (bytes_of "WSAEPROCLIM")
windows_error code_of ci_eusers = code_of (bytes_of "WSAEUSERS")
windows_error code_of ci_edquot = code_of (bytes_of "WSAEDQUOT")
windows_error code_of ci_estale = code_of (bytes_of "WSAESTALE")
windows_error code_of ci_eremote = code_of (bytes_of "WSAEREMOTE")

-- Their values elsewhere.
unfoldable pub linux_error : (List ℕ → ℤ) → CiError → ℤ
linux_error code_of ci_eintr = code_of (bytes_of "EINTR")
linux_error code_of ci_ebadf = code_of (bytes_of "EBADF")
linux_error code_of ci_eacces = code_of (bytes_of "EACCES")
linux_error code_of ci_efault = code_of (bytes_of "EFAULT")
linux_error code_of ci_einval = code_of (bytes_of "EINVAL")
linux_error code_of ci_emfile = code_of (bytes_of "EMFILE")
linux_error code_of ci_ewouldblock = code_of (bytes_of "EWOULDBLOCK")
linux_error code_of ci_einprogress = code_of (bytes_of "EINPROGRESS")
linux_error code_of ci_ealready = code_of (bytes_of "EALREADY")
linux_error code_of ci_enotsock = code_of (bytes_of "ENOTSOCK")
linux_error code_of ci_edestaddrreq = code_of (bytes_of "EDESTADDRREQ")
linux_error code_of ci_emsgsize = code_of (bytes_of "EMSGSIZE")
linux_error code_of ci_eprototype = code_of (bytes_of "EPROTOTYPE")
linux_error code_of ci_enoprotoopt = code_of (bytes_of "ENOPROTOOPT")
linux_error code_of ci_eprotonosupport = code_of (bytes_of "EPROTONOSUPPORT")
linux_error code_of ci_esocktnosupport = code_of (bytes_of "ESOCKTNOSUPPORT")
linux_error code_of ci_eopnotsupp = code_of (bytes_of "EOPNOTSUPP")
linux_error code_of ci_epfnosupport = code_of (bytes_of "EPFNOSUPPORT")
linux_error code_of ci_eafnosupport = code_of (bytes_of "EAFNOSUPPORT")
linux_error code_of ci_eaddrinuse = code_of (bytes_of "EADDRINUSE")
linux_error code_of ci_eaddrnotavail = code_of (bytes_of "EADDRNOTAVAIL")
linux_error code_of ci_enetdown = code_of (bytes_of "ENETDOWN")
linux_error code_of ci_enetunreach = code_of (bytes_of "ENETUNREACH")
linux_error code_of ci_enetreset = code_of (bytes_of "ENETRESET")
linux_error code_of ci_econnaborted = code_of (bytes_of "ECONNABORTED")
linux_error code_of ci_econnreset = code_of (bytes_of "ECONNRESET")
linux_error code_of ci_enobufs = code_of (bytes_of "ENOBUFS")
linux_error code_of ci_eisconn = code_of (bytes_of "EISCONN")
linux_error code_of ci_enotconn = code_of (bytes_of "ENOTCONN")
linux_error code_of ci_eshutdown = code_of (bytes_of "ESHUTDOWN")
linux_error code_of ci_etoomanyrefs = code_of (bytes_of "ETOOMANYREFS")
linux_error code_of ci_etimedout = code_of (bytes_of "ETIMEDOUT")
linux_error code_of ci_econnrefused = code_of (bytes_of "ECONNREFUSED")
linux_error code_of ci_eloop = code_of (bytes_of "ELOOP")
linux_error code_of ci_enametoolong = code_of (bytes_of "ENAMETOOLONG")
linux_error code_of ci_ehostdown = code_of (bytes_of "EHOSTDOWN")
linux_error code_of ci_ehostunreach = code_of (bytes_of "EHOSTUNREACH")
linux_error code_of ci_enotempty = code_of (bytes_of "ENOTEMPTY")
linux_error code_of ci_eproclim = code_of (bytes_of "EPROCLIM")
linux_error code_of ci_eusers = code_of (bytes_of "EUSERS")
linux_error code_of ci_edquot = code_of (bytes_of "EDQUOT")
linux_error code_of ci_estale = code_of (bytes_of "ESTALE")
linux_error code_of ci_eremote = code_of (bytes_of "EREMOTE")

-- Both systems name the same error: on Windows it is that of the other name after WSA.
windows-linux :
    (code_of : List ℕ → ℤ) (e : CiError)
    → windows_error code_of e ≡ linux_error (λ name. code_of (bytes_of "WSA" ++ name)) e
unfolding windows_error linux_error
windows-linux code_of ci_eintr = refl
windows-linux code_of ci_ebadf = refl
windows-linux code_of ci_eacces = refl
windows-linux code_of ci_efault = refl
windows-linux code_of ci_einval = refl
windows-linux code_of ci_emfile = refl
windows-linux code_of ci_ewouldblock = refl
windows-linux code_of ci_einprogress = refl
windows-linux code_of ci_ealready = refl
windows-linux code_of ci_enotsock = refl
windows-linux code_of ci_edestaddrreq = refl
windows-linux code_of ci_emsgsize = refl
windows-linux code_of ci_eprototype = refl
windows-linux code_of ci_enoprotoopt = refl
windows-linux code_of ci_eprotonosupport = refl
windows-linux code_of ci_esocktnosupport = refl
windows-linux code_of ci_eopnotsupp = refl
windows-linux code_of ci_epfnosupport = refl
windows-linux code_of ci_eafnosupport = refl
windows-linux code_of ci_eaddrinuse = refl
windows-linux code_of ci_eaddrnotavail = refl
windows-linux code_of ci_enetdown = refl
windows-linux code_of ci_enetunreach = refl
windows-linux code_of ci_enetreset = refl
windows-linux code_of ci_econnaborted = refl
windows-linux code_of ci_econnreset = refl
windows-linux code_of ci_enobufs = refl
windows-linux code_of ci_eisconn = refl
windows-linux code_of ci_enotconn = refl
windows-linux code_of ci_eshutdown = refl
windows-linux code_of ci_etoomanyrefs = refl
windows-linux code_of ci_etimedout = refl
windows-linux code_of ci_econnrefused = refl
windows-linux code_of ci_eloop = refl
windows-linux code_of ci_enametoolong = refl
windows-linux code_of ci_ehostdown = refl
windows-linux code_of ci_ehostunreach = refl
windows-linux code_of ci_enotempty = refl
windows-linux code_of ci_eproclim = refl
windows-linux code_of ci_eusers = refl
windows-linux code_of ci_edquot = refl
windows-linux code_of ci_estale = refl
windows-linux code_of ci_eremote = refl
