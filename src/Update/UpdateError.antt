-- ===== src/Update/UpdateError.antt =====
-- The `UPDATE_ERROR_` macros of Update.h and `_err2str` of Updater.cpp.
use Prim.Native.String.{String}
use jedge.Base.{ℕ, ◌==◌, if◌then◌else◌}

abbrev pub ok : ℕ
ok = 0

abbrev pub write : ℕ
write = 1

abbrev pub erase : ℕ
erase = 2

abbrev pub read : ℕ
read = 3

abbrev pub space : ℕ
space = 4

abbrev pub size : ℕ
size = 5

abbrev pub stream : ℕ
stream = 6

abbrev pub md5 : ℕ
md5 = 7

abbrev pub magic_byte : ℕ
magic_byte = 8

abbrev pub activate : ℕ
activate = 9

abbrev pub no_partition : ℕ
no_partition = 10

abbrev pub bad_argument : ℕ
bad_argument = 11

abbrev pub aborted : ℕ
aborted = 12

-- `_err2str`
pub err_to_str : ℕ → String
err_to_str error =
    if error == ok
    then "No Error"
    else if error == write
    then "Flash Write Failed"
    else if error == erase
    then "Flash Erase Failed"
    else if error == read
    then "Flash Read Failed"
    else if error == space
    then "Not Enough Space"
    else if error == size
    then "Bad Size Given"
    else if error == stream
    then "Stream Read Timeout"
    else if error == md5
    then "MD5 Check Failed"
    else if error == magic_byte
    then "Wrong Magic Byte"
    else if error == activate
    then "Could Not Activate The Firmware"
    else if error == no_partition
    then "Partition Could Not be Found"
    else if error == bad_argument
    then "Bad Argument"
    else if error == aborted
    then "Aborted"
    else "UNKNOWN"
