-- ===== src/Include/CppHeaders.antt =====
-- cpplint.py: `_CPP_HEADERS`, the C++ headers.
use dyod_ws1718_sprint.Common.{List, [], ◌∷◌}
use dyod_ws1718_sprint.Text.{Str, lit}

unfoldable pub cpp_headers : List Str
cpp_headers =
    lit "algobase.h"
    ∷ lit "algo.h"
    ∷ lit "alloc.h"
    ∷ lit "builtinbuf.h"
    ∷ lit "bvector.h"
    ∷ lit "complex.h"
    ∷ lit "defalloc.h"
    ∷ lit "deque.h"
    ∷ lit "editbuf.h"
    ∷ lit "fstream.h"
    ∷ lit "function.h"
    ∷ lit "hash_map"
    ∷ lit "hash_map.h"
    ∷ lit "hash_set"
    ∷ lit "hash_set.h"
    ∷ lit "hashtable.h"
    ∷ lit "heap.h"
    ∷ lit "indstream.h"
    ∷ lit "iomanip.h"
    ∷ lit "iostream.h"
    ∷ lit "istream.h"
    ∷ lit "iterator.h"
    ∷ lit "list.h"
    ∷ lit "map.h"
    ∷ lit "multimap.h"
    ∷ lit "multiset.h"
    ∷ lit "ostream.h"
    ∷ lit "pair.h"
    ∷ lit "parsestream.h"
    ∷ lit "pfstream.h"
    ∷ lit "procbuf.h"
    ∷ lit "pthread_alloc"
    ∷ lit "pthread_alloc.h"
    ∷ lit "rope"
    ∷ lit "rope.h"
    ∷ lit "ropeimpl.h"
    ∷ lit "set.h"
    ∷ lit "slist"
    ∷ lit "slist.h"
    ∷ lit "stack.h"
    ∷ lit "stdiostream.h"
    ∷ lit "stl_alloc.h"
    ∷ lit "stl_relops.h"
    ∷ lit "streambuf.h"
    ∷ lit "stream.h"
    ∷ lit "strfile.h"
    ∷ lit "strstream.h"
    ∷ lit "tempbuf.h"
    ∷ lit "tree.h"
    ∷ lit "type_traits.h"
    ∷ lit "vector.h"
    ∷ lit "algorithm"
    ∷ lit "array"
    ∷ lit "atomic"
    ∷ lit "bitset"
    ∷ lit "chrono"
    ∷ lit "codecvt"
    ∷ lit "complex"
    ∷ lit "condition_variable"
    ∷ lit "deque"
    ∷ lit "exception"
    ∷ lit "forward_list"
    ∷ lit "fstream"
    ∷ lit "functional"
    ∷ lit "future"
    ∷ lit "initializer_list"
    ∷ lit "iomanip"
    ∷ lit "ios"
    ∷ lit "iosfwd"
    ∷ lit "iostream"
    ∷ lit "istream"
    ∷ lit "iterator"
    ∷ lit "limits"
    ∷ lit "list"
    ∷ lit "locale"
    ∷ lit "map"
    ∷ lit "memory"
    ∷ lit "mutex"
    ∷ lit "new"
    ∷ lit "numeric"
    ∷ lit "optional"
    ∷ lit "ostream"
    ∷ lit "queue"
    ∷ lit "random"
    ∷ lit "ratio"
    ∷ lit "regex"
    ∷ lit "scoped_allocator"
    ∷ lit "set"
    ∷ lit "sstream"
    ∷ lit "stack"
    ∷ lit "stdexcept"
    ∷ lit "streambuf"
    ∷ lit "string"
    ∷ lit "strstream"
    ∷ lit "system_error"
    ∷ lit "thread"
    ∷ lit "tuple"
    ∷ lit "typeindex"
    ∷ lit "typeinfo"
    ∷ lit "type_traits"
    ∷ lit "unordered_map"
    ∷ lit "unordered_set"
    ∷ lit "utility"
    ∷ lit "valarray"
    ∷ lit "vector"
    ∷ lit "cassert"
    ∷ lit "ccomplex"
    ∷ lit "cctype"
    ∷ lit "cerrno"
    ∷ lit "cfenv"
    ∷ lit "cfloat"
    ∷ lit "cinttypes"
    ∷ lit "ciso646"
    ∷ lit "climits"
    ∷ lit "clocale"
    ∷ lit "cmath"
    ∷ lit "csetjmp"
    ∷ lit "csignal"
    ∷ lit "cstdalign"
    ∷ lit "cstdarg"
    ∷ lit "cstdbool"
    ∷ lit "cstddef"
    ∷ lit "cstdint"
    ∷ lit "cstdio"
    ∷ lit "cstdlib"
    ∷ lit "cstring"
    ∷ lit "ctgmath"
    ∷ lit "ctime"
    ∷ lit "cuchar"
    ∷ lit "cwchar"
    ∷ lit "cwctype"
    ∷ []
