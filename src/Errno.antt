-- ===== src/Errno.antt =====
-- src/errno.rs: the error numbers, and what a system call's result stores as the error of the
-- thread.
pub mod Results
mod Tests
use hermit_kernel.Base.{ℕ, ◌+◌, ◌^◌, Option, none, some}
use hermit_kernel.Base.Tests.{◌==◌, leb, ltb, if◌then◌else◌, ◌>>=◌, ◌>>◌, assert}
use hermit_kernel.Base.Int.{ℤ, pos, negsuc, neg_ℕ}

pub data Errno : Type 0 where
  perm noent srch intr io nxio toobig noexec badf child again nomem acces fault notblk busy exist
        xdev nodev notdir isdir inval nfile mfile notty txtbsy fbig nospc spipe rofs mlink pipe dom
        range deadlk nametoolong nolck nosys notempty loop nomsg idrm chrng l2nsync l3hlt l3rst
        lnrng unatch nocsi l2hlt bade badr xfull noano badrqc badslt bfont nostr nodata time nosr
        nonet nopkg remote nolink adv srmnt comm proto multihop dotdot badmsg overflow notuniq badfd
        remchg libacc libbad libscn libmax libexec ilseq restart strpipe users notsock destaddrreq
        msgsize prototype noprotoopt protonosupport socktnosupport opnotsupp pfnosupport afnosupport
        addrinuse addrnotavail netdown netunreach netreset connaborted connreset nobufs isconn
        notconn shutdown toomanyrefs timedout connrefused hostdown hostunreach already inprogress
        stale uclean notnam navail isnam remoteio dquot nomedium mediumtype canceled nokey
        keyexpired keyrevoked keyrejected ownerdead notrecoverable rfkill hwpoison :
      Errno

-- `i32::from`
unfoldable pub code : Errno → ℕ
code perm = 1
code noent = 2
code srch = 3
code intr = 4
code io = 5
code nxio = 6
code toobig = 7
code noexec = 8
code badf = 9
code child = 10
code again = 11
code nomem = 12
code acces = 13
code fault = 14
code notblk = 15
code busy = 16
code exist = 17
code xdev = 18
code nodev = 19
code notdir = 20
code isdir = 21
code inval = 22
code nfile = 23
code mfile = 24
code notty = 25
code txtbsy = 26
code fbig = 27
code nospc = 28
code spipe = 29
code rofs = 30
code mlink = 31
code pipe = 32
code dom = 33
code range = 34
code deadlk = 35
code nametoolong = 36
code nolck = 37
code nosys = 38
code notempty = 39
code loop = 40
code nomsg = 42
code idrm = 43
code chrng = 44
code l2nsync = 45
code l3hlt = 46
code l3rst = 47
code lnrng = 48
code unatch = 49
code nocsi = 50
code l2hlt = 51
code bade = 52
code badr = 53
code xfull = 54
code noano = 55
code badrqc = 56
code badslt = 57
code bfont = 59
code nostr = 60
code nodata = 61
code time = 62
code nosr = 63
code nonet = 64
code nopkg = 65
code remote = 66
code nolink = 67
code adv = 68
code srmnt = 69
code comm = 70
code proto = 71
code multihop = 72
code dotdot = 73
code badmsg = 74
code overflow = 75
code notuniq = 76
code badfd = 77
code remchg = 78
code libacc = 79
code libbad = 80
code libscn = 81
code libmax = 82
code libexec = 83
code ilseq = 84
code restart = 85
code strpipe = 86
code users = 87
code notsock = 88
code destaddrreq = 89
code msgsize = 90
code prototype = 91
code noprotoopt = 92
code protonosupport = 93
code socktnosupport = 94
code opnotsupp = 95
code pfnosupport = 96
code afnosupport = 97
code addrinuse = 98
code addrnotavail = 99
code netdown = 100
code netunreach = 101
code netreset = 102
code connaborted = 103
code connreset = 104
code nobufs = 105
code isconn = 106
code notconn = 107
code shutdown = 108
code toomanyrefs = 109
code timedout = 110
code connrefused = 111
code hostdown = 112
code hostunreach = 113
code already = 114
code inprogress = 115
code stale = 116
code uclean = 117
code notnam = 118
code navail = 119
code isnam = 120
code remoteio = 121
code dquot = 122
code nomedium = 123
code mediumtype = 124
code canceled = 125
code nokey = 126
code keyexpired = 127
code keyrevoked = 128
code keyrejected = 129
code ownerdead = 130
code notrecoverable = 131
code rfkill = 132
code hwpoison = 133

-- `Errno::try_from`
pub of_code : ℕ → Option Errno
of_code n =
    if n == 1
    then some perm
    else if n == 2
    then some noent
    else if n == 3
    then some srch
    else if n == 4
    then some intr
    else if n == 5
    then some io
    else if n == 6
    then some nxio
    else if n == 7
    then some toobig
    else if n == 8
    then some noexec
    else if n == 9
    then some badf
    else if n == 10
    then some child
    else if n == 11
    then some again
    else if n == 12
    then some nomem
    else if n == 13
    then some acces
    else if n == 14
    then some fault
    else if n == 15
    then some notblk
    else if n == 16
    then some busy
    else if n == 17
    then some exist
    else if n == 18
    then some xdev
    else if n == 19
    then some nodev
    else if n == 20
    then some notdir
    else if n == 21
    then some isdir
    else if n == 22
    then some inval
    else if n == 23
    then some nfile
    else if n == 24
    then some mfile
    else if n == 25
    then some notty
    else if n == 26
    then some txtbsy
    else if n == 27
    then some fbig
    else if n == 28
    then some nospc
    else if n == 29
    then some spipe
    else if n == 30
    then some rofs
    else if n == 31
    then some mlink
    else if n == 32
    then some pipe
    else if n == 33
    then some dom
    else if n == 34
    then some range
    else if n == 35
    then some deadlk
    else if n == 36
    then some nametoolong
    else if n == 37
    then some nolck
    else if n == 38
    then some nosys
    else if n == 39
    then some notempty
    else if n == 40
    then some loop
    else if n == 42
    then some nomsg
    else if n == 43
    then some idrm
    else if n == 44
    then some chrng
    else if n == 45
    then some l2nsync
    else if n == 46
    then some l3hlt
    else if n == 47
    then some l3rst
    else if n == 48
    then some lnrng
    else if n == 49
    then some unatch
    else if n == 50
    then some nocsi
    else if n == 51
    then some l2hlt
    else if n == 52
    then some bade
    else if n == 53
    then some badr
    else if n == 54
    then some xfull
    else if n == 55
    then some noano
    else if n == 56
    then some badrqc
    else if n == 57
    then some badslt
    else if n == 59
    then some bfont
    else if n == 60
    then some nostr
    else if n == 61
    then some nodata
    else if n == 62
    then some time
    else if n == 63
    then some nosr
    else if n == 64
    then some nonet
    else if n == 65
    then some nopkg
    else if n == 66
    then some remote
    else if n == 67
    then some nolink
    else if n == 68
    then some adv
    else if n == 69
    then some srmnt
    else if n == 70
    then some comm
    else if n == 71
    then some proto
    else if n == 72
    then some multihop
    else if n == 73
    then some dotdot
    else if n == 74
    then some badmsg
    else if n == 75
    then some overflow
    else if n == 76
    then some notuniq
    else if n == 77
    then some badfd
    else if n == 78
    then some remchg
    else if n == 79
    then some libacc
    else if n == 80
    then some libbad
    else if n == 81
    then some libscn
    else if n == 82
    then some libmax
    else if n == 83
    then some libexec
    else if n == 84
    then some ilseq
    else if n == 85
    then some restart
    else if n == 86
    then some strpipe
    else if n == 87
    then some users
    else if n == 88
    then some notsock
    else if n == 89
    then some destaddrreq
    else if n == 90
    then some msgsize
    else if n == 91
    then some prototype
    else if n == 92
    then some noprotoopt
    else if n == 93
    then some protonosupport
    else if n == 94
    then some socktnosupport
    else if n == 95
    then some opnotsupp
    else if n == 96
    then some pfnosupport
    else if n == 97
    then some afnosupport
    else if n == 98
    then some addrinuse
    else if n == 99
    then some addrnotavail
    else if n == 100
    then some netdown
    else if n == 101
    then some netunreach
    else if n == 102
    then some netreset
    else if n == 103
    then some connaborted
    else if n == 104
    then some connreset
    else if n == 105
    then some nobufs
    else if n == 106
    then some isconn
    else if n == 107
    then some notconn
    else if n == 108
    then some shutdown
    else if n == 109
    then some toomanyrefs
    else if n == 110
    then some timedout
    else if n == 111
    then some connrefused
    else if n == 112
    then some hostdown
    else if n == 113
    then some hostunreach
    else if n == 114
    then some already
    else if n == 115
    then some inprogress
    else if n == 116
    then some stale
    else if n == 117
    then some uclean
    else if n == 118
    then some notnam
    else if n == 119
    then some navail
    else if n == 120
    then some isnam
    else if n == 121
    then some remoteio
    else if n == 122
    then some dquot
    else if n == 123
    then some nomedium
    else if n == 124
    then some mediumtype
    else if n == 125
    then some canceled
    else if n == 126
    then some nokey
    else if n == 127
    then some keyexpired
    else if n == 128
    then some keyrevoked
    else if n == 129
    then some keyrejected
    else if n == 130
    then some ownerdead
    else if n == 131
    then some notrecoverable
    else if n == 132
    then some rfkill
    else if n == 133
    then some hwpoison
    else none

-- The result of a system call that fails, `-i32::from(errno)`.
abbrev pub failure : Errno → ℤ
failure e = neg_ℕ (code e)

-- `ToErrno for i32`: the negated number, which wraps at the least one.
pub to_errno_i32 : ℤ → Option ℤ
to_errno_i32 (pos n) = none
to_errno_i32 (negsuc n) = if n + 1 == 2 ^ 31 then some (negsuc n) else some (pos (n + 1))

-- `ToErrno for i64` and for `isize`. The outer `none` is the panic of `unwrap`.
pub to_errno_i64 : ℤ → Option (Option ℤ)
to_errno_i64 (pos n) = some none
to_errno_i64 (negsuc n) = do assert (ltb (n + 1) (2 ^ 31)); some (some (pos (n + 1)))

-- `ToErrno for Errno`
pub to_errno_errno : Errno → Option ℤ
to_errno_errno e = some (pos (code e))

-- `set_errno`, on the error number of the thread.
pub set_errno : Option ℤ → ℤ → ℤ
set_errno none errno = errno
set_errno (some e) errno = e
