-- ===== src/Package/Aliases/ErrCodes/Third.antt =====
-- src/gpgme/__init__.py: constants for the error codes, in the order of the source.
use pygpgme.Base.{List, [], ◌∷◌}
use pygpgme.Python.Value.{EnumName}
use pygpgme.Package.Aliases.Names.{Alias, to}

abbrev pub err_code_aliases_third : List Alias
err_code_aliases_third =
    to "ERR_EFBIG" EnumName.err_code "EFBIG"
    ∷ to "ERR_EFTYPE" EnumName.err_code "EFTYPE"
    ∷ to "ERR_EGRATUITOUS" EnumName.err_code "EGRATUITOUS"
    ∷ to "ERR_EGREGIOUS" EnumName.err_code "EGREGIOUS"
    ∷ to "ERR_EHOSTDOWN" EnumName.err_code "EHOSTDOWN"
    ∷ to "ERR_EHOSTUNREACH" EnumName.err_code "EHOSTUNREACH"
    ∷ to "ERR_EIDRM" EnumName.err_code "EIDRM"
    ∷ to "ERR_EIEIO" EnumName.err_code "EIEIO"
    ∷ to "ERR_EILSEQ" EnumName.err_code "EILSEQ"
    ∷ to "ERR_EINPROGRESS" EnumName.err_code "EINPROGRESS"
    ∷ to "ERR_EINTR" EnumName.err_code "EINTR"
    ∷ to "ERR_EINVAL" EnumName.err_code "EINVAL"
    ∷ to "ERR_EIO" EnumName.err_code "EIO"
    ∷ to "ERR_EISCONN" EnumName.err_code "EISCONN"
    ∷ to "ERR_EISDIR" EnumName.err_code "EISDIR"
    ∷ to "ERR_EISNAM" EnumName.err_code "EISNAM"
    ∷ to "ERR_EL2HLT" EnumName.err_code "EL2HLT"
    ∷ to "ERR_EL2NSYNC" EnumName.err_code "EL2NSYNC"
    ∷ to "ERR_EL3HLT" EnumName.err_code "EL3HLT"
    ∷ to "ERR_EL3RST" EnumName.err_code "EL3RST"
    ∷ to "ERR_ELIBACC" EnumName.err_code "ELIBACC"
    ∷ to "ERR_ELIBBAD" EnumName.err_code "ELIBBAD"
    ∷ to "ERR_ELIBEXEC" EnumName.err_code "ELIBEXEC"
    ∷ to "ERR_ELIBMAX" EnumName.err_code "ELIBMAX"
    ∷ to "ERR_ELIBSCN" EnumName.err_code "ELIBSCN"
    ∷ to "ERR_ELNRNG" EnumName.err_code "ELNRNG"
    ∷ to "ERR_ELOOP" EnumName.err_code "ELOOP"
    ∷ to "ERR_EMEDIUMTYPE" EnumName.err_code "EMEDIUMTYPE"
    ∷ to "ERR_EMFILE" EnumName.err_code "EMFILE"
    ∷ to "ERR_EMLINK" EnumName.err_code "EMLINK"
    ∷ to "ERR_EMSGSIZE" EnumName.err_code "EMSGSIZE"
    ∷ to "ERR_EMULTIHOP" EnumName.err_code "EMULTIHOP"
    ∷ to "ERR_ENAMETOOLONG" EnumName.err_code "ENAMETOOLONG"
    ∷ to "ERR_ENAVAIL" EnumName.err_code "ENAVAIL"
    ∷ to "ERR_ENEEDAUTH" EnumName.err_code "ENEEDAUTH"
    ∷ to "ERR_ENETDOWN" EnumName.err_code "ENETDOWN"
    ∷ to "ERR_ENETRESET" EnumName.err_code "ENETRESET"
    ∷ to "ERR_ENETUNREACH" EnumName.err_code "ENETUNREACH"
    ∷ to "ERR_ENFILE" EnumName.err_code "ENFILE"
    ∷ to "ERR_ENOANO" EnumName.err_code "ENOANO"
    ∷ to "ERR_ENOBUFS" EnumName.err_code "ENOBUFS"
    ∷ to "ERR_ENOCSI" EnumName.err_code "ENOCSI"
    ∷ to "ERR_ENODATA" EnumName.err_code "ENODATA"
    ∷ to "ERR_ENODEV" EnumName.err_code "ENODEV"
    ∷ to "ERR_ENOENT" EnumName.err_code "ENOENT"
    ∷ to "ERR_ENOEXEC" EnumName.err_code "ENOEXEC"
    ∷ to "ERR_ENOLCK" EnumName.err_code "ENOLCK"
    ∷ to "ERR_ENOLINK" EnumName.err_code "ENOLINK"
    ∷ to "ERR_ENOMEDIUM" EnumName.err_code "ENOMEDIUM"
    ∷ to "ERR_ENOMEM" EnumName.err_code "ENOMEM"
    ∷ to "ERR_ENOMSG" EnumName.err_code "ENOMSG"
    ∷ to "ERR_ENONET" EnumName.err_code "ENONET"
    ∷ to "ERR_ENOPKG" EnumName.err_code "ENOPKG"
    ∷ to "ERR_ENOPROTOOPT" EnumName.err_code "ENOPROTOOPT"
    ∷ to "ERR_ENOSPC" EnumName.err_code "ENOSPC"
    ∷ to "ERR_ENOSR" EnumName.err_code "ENOSR"
    ∷ to "ERR_ENOSTR" EnumName.err_code "ENOSTR"
    ∷ to "ERR_ENOSYS" EnumName.err_code "ENOSYS"
    ∷ to "ERR_ENOTBLK" EnumName.err_code "ENOTBLK"
    ∷ to "ERR_ENOTCONN" EnumName.err_code "ENOTCONN"
    ∷ to "ERR_ENOTDIR" EnumName.err_code "ENOTDIR"
    ∷ to "ERR_ENOTEMPTY" EnumName.err_code "ENOTEMPTY"
    ∷ to "ERR_ENOTNAM" EnumName.err_code "ENOTNAM"
    ∷ to "ERR_ENOTSOCK" EnumName.err_code "ENOTSOCK"
    ∷ to "ERR_ENOTSUP" EnumName.err_code "ENOTSUP"
    ∷ to "ERR_ENOTTY" EnumName.err_code "ENOTTY"
    ∷ to "ERR_ENOTUNIQ" EnumName.err_code "ENOTUNIQ"
    ∷ to "ERR_ENXIO" EnumName.err_code "ENXIO"
    ∷ to "ERR_EOPNOTSUPP" EnumName.err_code "EOPNOTSUPP"
    ∷ to "ERR_EOVERFLOW" EnumName.err_code "EOVERFLOW"
    ∷ to "ERR_EPERM" EnumName.err_code "EPERM"
    ∷ to "ERR_EPFNOSUPPORT" EnumName.err_code "EPFNOSUPPORT"
    ∷ to "ERR_EPIPE" EnumName.err_code "EPIPE"
    ∷ to "ERR_EPROCLIM" EnumName.err_code "EPROCLIM"
    ∷ to "ERR_EPROCUNAVAIL" EnumName.err_code "EPROCUNAVAIL"
    ∷ to "ERR_EPROGMISMATCH" EnumName.err_code "EPROGMISMATCH"
    ∷ to "ERR_EPROGUNAVAIL" EnumName.err_code "EPROGUNAVAIL"
    ∷ to "ERR_EPROTO" EnumName.err_code "EPROTO"
    ∷ to "ERR_EPROTONOSUPPORT" EnumName.err_code "EPROTONOSUPPORT"
    ∷ to "ERR_EPROTOTYPE" EnumName.err_code "EPROTOTYPE"
    ∷ to "ERR_ERANGE" EnumName.err_code "ERANGE"
    ∷ to "ERR_EREMCHG" EnumName.err_code "EREMCHG"
    ∷ to "ERR_EREMOTE" EnumName.err_code "EREMOTE"
    ∷ to "ERR_EREMOTEIO" EnumName.err_code "EREMOTEIO"
    ∷ to "ERR_ERESTART" EnumName.err_code "ERESTART"
    ∷ to "ERR_EROFS" EnumName.err_code "EROFS"
    ∷ to "ERR_ERPCMISMATCH" EnumName.err_code "ERPCMISMATCH"
    ∷ to "ERR_ESHUTDOWN" EnumName.err_code "ESHUTDOWN"
    ∷ to "ERR_ESOCKTNOSUPPORT" EnumName.err_code "ESOCKTNOSUPPORT"
    ∷ to "ERR_ESPIPE" EnumName.err_code "ESPIPE"
    ∷ to "ERR_ESRCH" EnumName.err_code "ESRCH"
    ∷ to "ERR_ESRMNT" EnumName.err_code "ESRMNT"
    ∷ to "ERR_ESTALE" EnumName.err_code "ESTALE"
    ∷ to "ERR_ESTRPIPE" EnumName.err_code "ESTRPIPE"
    ∷ to "ERR_ETIME" EnumName.err_code "ETIME"
    ∷ to "ERR_ETIMEDOUT" EnumName.err_code "ETIMEDOUT"
    ∷ to "ERR_ETOOMANYREFS" EnumName.err_code "ETOOMANYREFS"
    ∷ to "ERR_ETXTBSY" EnumName.err_code "ETXTBSY"
    ∷ to "ERR_EUCLEAN" EnumName.err_code "EUCLEAN"
    ∷ to "ERR_EUNATCH" EnumName.err_code "EUNATCH"
    ∷ to "ERR_EUSERS" EnumName.err_code "EUSERS"
    ∷ to "ERR_EWOULDBLOCK" EnumName.err_code "EWOULDBLOCK"
    ∷ to "ERR_EXDEV" EnumName.err_code "EXDEV"
    ∷ to "ERR_EXFULL" EnumName.err_code "EXFULL"
    ∷ []
