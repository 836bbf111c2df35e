-- ===== src/Lib.antt =====
-- pygpgme is a CPython extension (lib/ in C, src/gpgme in Python) around gpgme: `Context` objects whose
-- methods encrypt, decrypt, sign, verify and manage keys, with Python file objects as data and Python
-- exceptions for gpgme's errors. This library models its code and proves what follows under "Results".
--
-- The parts, and where they are modelled:
-- - Base: ints and lists over the native numbers. `long` has 64 bits and `int` 32, in two's
--   complement (Base.Int), as on the platforms that the extension is built for.
-- - Python: the objects that the extension builds and reads (lib/pygpgme.h), the pending exception
--   and the outcomes of the allocations that the code checks. `Platform` stands for the functions of
--   CPython and of libgpg-error that are called: the decoders, the classes of the enumerations, the
--   parts of an error number. `set_error`, `clear_error`, `occurred` and `as_long` are CPython's
--   PyErr_SetString, PyErr_Clear, PyErr_Occurred and PyLong_AsLong.
-- - Constants (lib/pygpgme-constants.c): pygpgme_enum_value_new in Lookup; the CONST lines of every
--   enumeration with their #if conditions in Tables, and in Enums the dict that they build. The numbers
--   of the macros, which are in headers elsewhere, are the parameter `macro`.
-- - Errors (lib/pygpgme-error.c): pygpgme_error_object, pygpgme_check_error and
--   pygpgme_check_pyerror, both ways between gpgme's errors and exceptions.
-- - Gpgme: the structures that gpgme returns, their linked lists as lists, and `Engine`, which
--   stands for gpgme itself: what each operation answers and the results it leaves, over any type of
--   states of a gpgme context.
-- - Signature (lib/pygpgme-signature.c): pygpgme_newsiglist_new, pygpgme_siglist_new and
--   pygpgme_sig_notation_list_new, with a failure possible at each allocation, and in Notation the
--   class SigNotation.
-- - Results (lib/pygpgme-import.c, lib/pygpgme-genkey.c, lib/pygpgme-engine-info.c):
--   pygpgme_import_result, pygpgme_genkey_result and pygpgme_engine_info_list_new.
-- - Data (lib/pygpgme-data.c): set_errno, read_cb, write_cb and seek_cb, over a Python file object
--   that may answer anything (`FileObject`). The loop over read_cb in Reading, `read_all`, stands for
--   gpgme's, with the number of calls as its fuel, of which one more than there are bytes is enough.
--   pygpgme_data_new and release_cb are in Context.Resources.
-- - Context (lib/pygpgme-context.c): the methods that run an operation of gpgme, one call of one
--   thread at a time. `World` holds the thread's Python state, the state of gpgme, the locks, and the
--   numbers of references, objects and blocks of memory. Annotate has the attributes that a failed
--   method adds to its exception, Crypt and Keyring the methods, Patterns parse_key_patterns.
--   Balance and Calls are about what a call leaves of what it was given, Outcome about what it
--   returns, Calm about the objects that it makes, where memory lasts; Settings.Rule is about locks
--   and results for the attributes.
-- - Context.Keyiter (lib/pygpgme-keyiter.c): the iterator that keylist returns. The loop over it,
--   `keys_from`, is not in the C code: it stands for a `for` loop of Python, with the number of steps
--   as its fuel, of which one more than there are keys is enough.
-- - Context.Attributes: the getters and setters of armor, textmode, offline, protocol, keylist_mode,
--   pinentry_mode and include_certs, over `Settings`, which stands for gpgme's own. Context.Signers
--   and Context.Notations have signers and sig_notations, Context.Callbacks passphrase_cb,
--   progress_cb and the functions that gpgme calls back, Context.Settings the sender, the engines and
--   the locale, Context.Life pygpgme_context_new, its init and its dealloc, and
--   Context.Lifetime a program that uses a Context between them. The loop of get_signers has
--   the number of its rounds as its fuel, of which one more than there are signers is enough.
-- - Keys (lib/pygpgme-key.c): the getters of Key, Subkey, UserId and KeySig in Getters, the lists of
--   parts in Parts, and in Heap the objects in memory with their reference counts, for any program
--   that makes, asks, copies and drops them. The chain from a part to its key is followed with fuel,
--   of which one more than the object's number is enough, since a parent is older than its part.
-- - Module (lib/gpgme.c, with make_enum and pygpgme_add_constants of lib/pygpgme-constants.c):
--   pygpgme_mod_exec with a failure possible at each creation of a class, pygpgme_mod_traverse and
--   pygpgme_mod_clear; in Init PyInit__gpgme and the slots of the module.
-- - Classes: the static tables of the twelve classes, in all files of lib. Spec has the rows of such a
--   table, Results, Keys and Context the tables with their conditions on Python's version, Lookup what
--   CPython makes of them, Stub the names that src/gpgme/_gpgme.pyi declares, Release the functions for
--   tp_dealloc of the results. A getter, setter or method stands there as its name.
-- - Threads (lib/pygpgme-context.c): begin_allow_threads, end_allow_threads, lock_context,
--   unlock_context and the callbacks as steps of any number of threads in any order, one blocking or
--   visible action at a time; in Iteration with the steps of pygpgme_keyiter_next among them.
-- - Package (src/gpgme, in Python). Aliases has the lines of __init__.py that give members of the
--   enumerations other names, in tables for each enumeration. Editor is editutil.py: a generator is a
--   function from the point where it waits and the status it is sent to its outcome, Trust and Sign have
--   the two generators, Wrapper `key_editor` with its `edit_callback`, Dialogue a description of the
--   dialogues apart from the generators. In Session gpgme is an explicit list of statuses, for each of
--   which it calls pygpgme_edit_cb and that `edit_callback`, until one reports an error. `'%d'` is
--   `digits`, whose rounds are one more than the number, which is enough as each takes a digit off.
-- The methods of Context call Errors for every result of gpgme, Data's handles for every file, and
-- Signature and Results for what they return or attach to an exception.
--
-- Each function of the C code has the name of its model, without `pygpgme_` and `pygpgme_context_`;
-- its parts, such as `encrypt_run`, are helpers of the same C function. All other recursions
-- are on lists. Memory is finite where the code checks it: the field `mem` says of each
-- such allocation whether it succeeds. Allocations that the code does not check succeed, and the
-- wording of messages is left out. The field `fault` says that C has done something undefined, such
-- as dropping a `NULL` reference; the model then goes on, but what it says of the call means nothing.
-- The field `lost` counts the objects that the extension makes and forgets on a failing branch: the
-- result of an import without a list, the result of genkey where the exception is no GpgmeError,
-- and the items of EngineInfo and SigNotation, whose dealloc does not free them. References on
-- classes are counted in Context.Life for the class Context and in Classes.Release for the results.
--
-- Not modelled: the texts of the documentation in the tables, the re-exports of src/gpgme/__init__.py that
-- do nothing but import, and of src/gpgme/_gpgme.pyi the types and the enumerations.
pub mod Base
pub mod Python
pub mod Constants
pub mod Errors
pub mod Gpgme
pub mod Signature
pub mod Results
pub mod Data
pub mod Context
pub mod Keys
pub mod Module
pub mod Package
pub mod Classes
pub mod Threads
