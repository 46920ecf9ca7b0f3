-- ===== src/Lib.antt =====
-- tiny-dbms, a small database that stores each column of a table in a chain of 4096-byte blocks.
--
-- The library follows the parts of the program, from the bytes up.
--
--   Memory      the char buffers and memcpy that all parts use, ints as 32-bit patterns with their
--               wrap-around, and the two loops of the serializers, over a moving offset.
--   Value       include/meta/value.h: the values of a column and their bytes (Encode), Compare
--               (Compare/Order for INT, Compare/Texts for VCHAR), and the conversions between values
--               and texts (Convert).
--   DataBlock   include/meta/block/data_block.h: one block of one column. Layout says which records
--               a block stores; Header, Insert and Delete are about the operations.
--   Table       include/meta/table/column_table.h and include/meta/column/column_array.h: the header
--               of a table, the layout of its bytes (Bytes), reading it back (RoundTrip), and
--               InsertColumn (Grow).
--   TableBlock  include/meta/block/table_block.h: the block of table headers. Placed says which tables
--               stand where; InsertTable and Header are about the operations.
--   Sql         include/sql/sql_struct.h: the comparators and operators, columns, conditions and kinds
--               of statement, and the bytes of an answer (Response).
--   Lexer       include/sql/parser/token.h and word_separater.h: a statement is split into tokens.
--               A round of the loop in Tokenize is lex_one, and its inner loops are span. Round is
--               about one round, Split about the whole loop.
--   Pattern     include/sql/parser/sql_pattern.h: token patterns and the matchers. Grammar holds the
--               patterns of the statements, Spec says which tokens a pattern stands for, Match and
--               Sentence that the matchers accept only those, and Accept what they do accept.
--   Ast         include/sql/parser/ast.h: what the trees hold and how their constructors take it from
--               the tokens; BuildNode of sql_pattern.h.
--   Parser      include/sql/parser/parser.h: ParseSql and BuildAST. Recognise is about every kind of
--               statement, and Insert, CreateTable and Select (with Conditions and its other parts,
--               named after it) follow one kind from the tokens to the tree, and InsertBack from
--               the form of an INSERT to its recognition; Shapes and Steps are their steps.
--   Scan        the scans of one block in include/sql/executer/operator.h, SerializeOp, FilterOp and
--               FilterEqualOp: what they are to return (Spec) and that they do (Correct, Equal).
--   Join        the joins of columns by tag in include/sql/executer/operator.h.
--   Storage     include/storage: the files of blocks (Files), the slots and the pool (Pool), and the
--               calls of lock_watcher.cpp as steps on its state (Watcher). Disk says which blocks a
--               file stores; Cycle and Extend follow one thread that takes blocks and gives them
--               back; Deadlock is about several.
--   Access      the look-ups, the loads of a column and InsertIntoTable in operator.h, over the
--               watcher: Lookup, Chain and Load, Filter for FilterLoad, and Steps, Place, Grow and
--               Insert for InsertIntoTable. Reread puts InsertIntoTable and FilterLoad together.
--   Operate     Insert in operator.h, with its checks, JointParamRow (Row) and InsertRow.
--   Select      include/sql/executer/optimizer.h, and the text of rows in include/meta/value_tag.h: the
--               answer to a SELECT, over the loads and the joins (Rows). Spec and Answer say in words of
--               their own which columns, conditions and texts it is about, Loads is about the loop
--               over the columns, and Texts says that the values of the rows have texts.
--   StdMap      std::map as the scans and joins use it.
--   Base, Tests the shared helpers, and the concrete inputs.
--
-- Conventions. A call returns a Result: ok with its value, raise with the kind of exception that the
-- code throws, or fault for undefined behaviour such as a copy that leaves its buffer. An int is its
-- bit pattern, a number below 2^32; a float is its 32 bits, and what the code does with floats is the
-- parameter Floats, since the language's float arithmetic is not the program's. A string is the list
-- of its bytes, and a block's data pointer the list of the bytes behind it. Pointers to rows and
-- values are the rows and values, and where rows change through pointers in a map, the map holds
-- them. A loop that counts down runs over its number of rounds. A loop along the chain of blocks of a
-- column runs on fuel; as much fuel as the chain has blocks is enough. A call of the watcher is one
-- step, which returns, or tells what the thread waits for. A file is the list of its bytes, and the
-- files are a map from their paths; a block's data pointer is the slot that it points into. The
-- tokenizer's loop runs on fuel, one round more than the statement has characters, and a round takes one
-- character at least. The classes of characters are those of the C locale. A matcher's loop over an
-- optional pattern runs on one round more than there are tokens, since each round takes a token, and
-- so does the loop over the conditions of a SELECT. The text of an int has ten digits at most, and
-- that of a tag twenty. An uninitialised member, such as the cached length of a pattern, is `none`,
-- and reading it is a fault; so is a token past the last. in_use and user_amount of a new slot and
-- no_space_failure_times of a new pool are such members: the theorems start from slots that a call has
-- left free or held.
--
-- Not modelled: the message queues, the worker and connector threads and the streams, which are calls
-- of the operating system; the calls of the watcher for table blocks; the operators that create and
-- drop databases and tables, and the executer, which calls them; the text of a tree; and the log.
pub mod Base
pub mod StdMap
pub mod Memory
pub mod Value
pub mod DataBlock
pub mod Table
pub mod TableBlock
pub mod Sql
pub mod Lexer
pub mod Pattern
pub mod Ast
pub mod Parser
pub mod Scan
pub mod Join
pub mod Storage
pub mod Access
pub mod Operate
pub mod Select
pub mod Tests
