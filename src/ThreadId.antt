-- ===== src/ThreadId.antt =====
-- include/ThreadID.h: the id of the current thread, kept in a variable of each thread. The system
-- call's answer is an argument.
use lucky.Base.{ℕ, ◌==◌, if◌then◌else◌}

-- `Tid` of a thread after the call, for a thread whose id is `gettid`.
unfoldable pub cache_tid : ℕ → ℕ → ℕ
cache_tid gettid cached = if cached == 0 then gettid else cached

-- `Tid` after the call, which is also the result.
unfoldable pub tid : ℕ → ℕ → ℕ
tid gettid cached = if cached == 0 then cache_tid gettid cached else cached
