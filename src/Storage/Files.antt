-- ===== src/Storage/Files.antt =====
-- include/storage/block_file_management.h, and the paths of include/utils/cal_file_url_util.h. A file
-- is the list of its bytes.
use tiny_dbms.Base.{
  ℕ, ◌+◌, ◌-◌, ◌*◌, ◌/◌, ◌%◌, List, [], ◌∷◌, ◌++◌, ◌==◌, ◌=str=◌, if◌then◌else◌, codes, length,
  take, drop, replicate, Result, ok, raise, invalid_suffix, no_such_file, require, none, some, ◌>>◌,
}
use tiny_dbms.Memory.Words.{int_mod, is_negative}
use tiny_dbms.Memory.Buffer.{Buffer, slice, patch}
use tiny_dbms.StdMap.{find, assign, string_key}
use tiny_dbms.DataBlock.{block_size}

-- The files by their paths.
abbrev pub Files : Type 0
Files = List (List ℕ × Buffer)

unfoldable pub get_db_folder : List ℕ → List ℕ → List ℕ
get_db_folder install_path db_name = install_path ++ (codes "/" ++ db_name)

unfoldable pub get_default_table_path : List ℕ → List ℕ → List ℕ
get_default_table_path install_path db_name = get_db_folder install_path db_name ++ codes "/tables"

unfoldable pub get_table_header_file : List ℕ → List ℕ → List ℕ
get_table_header_file install_path db_name =
    get_default_table_path install_path db_name ++ codes "/default_table.tvdbb"

unfoldable pub get_table_data_file : List ℕ → List ℕ → List ℕ → List ℕ
get_table_data_file install_path db_name table_name =
    (get_default_table_path install_path db_name ++ (codes "/data/" ++ table_name)) ++ codes ".data"

-- `path.substr(path.find_last_of(".") + 1)`, which is all of a path with no dot.
unfoldable pub after_last_dot : List ℕ → List ℕ → List ℕ
after_last_dot [] best = best
after_last_dot (c ∷ cs) best = after_last_dot cs (if c == 46 then cs else best)

unfoldable pub open_file : List ℕ → List ℕ → Files → Result Buffer
open_file suffix file_path files = do
  require (codes "." ++ after_last_dot file_path file_path =str= suffix) invalid_suffix
  elim (find file_path files) [ none ↦ raise no_such_file | some file ↦ ok file ]

unfoldable pub open_data_file : List ℕ → Files → Result Buffer
open_data_file file_path files = open_file (codes ".data") file_path files

unfoldable pub open_table_file : List ℕ → Files → Result Buffer
open_table_file file_path files = open_file (codes ".tvdbb") file_path files

-- Where a block begins, an `int`. A seek to a negative position fails, and so does what follows it.
abbrev pub block_position : ℕ → ℕ
block_position block_address = (block_address * block_size) % int_mod

-- A read at the end of the file brings the bytes that are there.
unfoldable pub read_from_file : Buffer → ℕ → Buffer → Buffer
read_from_file file block_address bytes =
    if is_negative (block_position block_address)
    then bytes
    else patch bytes 0 (slice file (block_position block_address) block_size)

-- A write behind the end of the file fills the gap with zeros.
unfoldable pub write_at : Buffer → ℕ → Buffer → Buffer
write_at file position bytes =
    (take position file ++ replicate (position - length file) 0)
    ++ (bytes ++ drop (position + length bytes) file)

unfoldable pub write_back_block : Buffer → ℕ → Buffer → Buffer
write_back_block file block_address bytes =
    if is_negative (block_position block_address)
    then file
    else write_at file (block_position block_address) (take block_size bytes)

-- The number of blocks, a started one included.
unfoldable pub new_block_address : Buffer → ℕ
new_block_address file =
    if (length file % block_size) == 0
    then (length file / block_size) % int_mod
    else (length file / block_size + 1) % int_mod

-- A missing file is created; the files, and the address.
unfoldable pub get_new_block_address : List ℕ → Files → Files × ℕ
get_new_block_address file_uri files = elim (find file_uri files) [
  | none ↦ (assign file_uri [] files, new_block_address [])
  | some file ↦ (files, new_block_address file)
]
