-- ===== src/Client/Output.antt =====
-- Messages to a client: the output buffer of src/client.c and the messages that are put there.
pub mod Queue
use usbmuxd_win_mce.Base.{
  ℕ, ◌+◌, ◌*◌, ◌/◌, ◌%◌, ◌^◌, Bool, true, false, Option, none, some, List, [], ◌∷◌, ◌++◌, ℤ, pos,
  neg, length, take, replicate, ltb, ◌==◌, if◌then◌else◌, add32, sub32, le16, le32, String, codes,
}
use usbmuxd_win_mce.State.{MuxClient, DeviceInfo}
use usbmuxd_win_mce.State.Monad.{M, pure, ◌>>=◌, ◌>>◌, deref, load_client, store_client, tick}
use usbmuxd_win_mce.Env.{Env, PlistLib}

-- `enum usbmuxd_msgtype`
abbrev pub message_result : ℕ
message_result = 1

abbrev pub message_connect : ℕ
message_connect = 2

abbrev pub message_listen : ℕ
message_listen = 3

abbrev pub message_device_add : ℕ
message_device_add = 4

abbrev pub message_device_remove : ℕ
message_device_remove = 5

abbrev pub message_device_paired : ℕ
message_device_paired = 6

abbrev pub message_plist : ℕ
message_plist = 8

-- `enum usbmuxd_result`
abbrev pub result_ok : ℕ
result_ok = 0

abbrev pub result_badcommand : ℕ
result_badcommand = 1

abbrev pub result_baddev : ℕ
result_baddev = 2

abbrev pub result_connrefused : ℕ
result_connrefused = 3

abbrev pub result_badversion : ℕ
result_badversion = 6

-- sizeof(struct usbmuxd_header)
abbrev pub usbmuxd_header_size : ℕ
usbmuxd_header_size = 16

-- `struct usbmuxd_header`, in the host's (little endian) order
unfoldable pub usbmuxd_header : ℕ → ℕ → ℕ → ℕ → List ℕ
usbmuxd_header len version message tag = le32 len ++ le32 version ++ le32 message ++ le32 tag

abbrev pub bytes_of : Option (List ℕ) → List ℕ
bytes_of none = []
bytes_of (some b) = b

abbrev pub ob_size : MuxClient → ℕ
ob_size c = length (bytes_of c.ob_buf)

-- `((capacity + length + 4096) / 4096) * 4096`, on uint32_t
abbrev pub enlarged : ℕ → ℕ → ℕ
enlarged capacity len = add32 (add32 capacity len) 4096 / 4096 * 4096 % 2 ^ 32

-- Make room for `len` more bytes; `none` if that needs a realloc which is not granted.
unfoldable pub reserve : Bool → MuxClient → ℕ → Option MuxClient
reserve granted c len =
    if ltb (sub32 c.ob_capacity (ob_size c)) len
    then (if granted
        then some (record c {
          ob_buf = some (bytes_of c.ob_buf);
          ob_capacity = enlarged c.ob_capacity len;
        })
        else none)
    else some c

module _ (env : Env) where
  -- Returns the length of the message, or -1. A write to a buffer that was freed is a fault.
  unfoldable pub output_buffer_add_message : ℕ → ℕ → ℕ → List ℕ → M ℤ
  output_buffer_add_message client tag msg payload = do
    c ← load_client client
    let len = add32 usbmuxd_header_size (length payload)
    call ← tick
    elim (reserve (env.realloc call (enlarged c.ob_capacity len)) c len) [
      | none ↦ pure (neg 1)
      | some c' ↦ do
        buf ← deref c'.ob_buf
        store_client client (record c' {
          ob_buf = some (buf ++ (usbmuxd_header len c.proto_version msg tag ++ payload));
          events = record { pollin = c'.events.pollin; pollout = true };
        })
        pure (pos len)
    ]

  unfoldable pub send_plist : ℕ → ℕ → ℕ → M ℤ
  send_plist client tag plist = elim (env.plist.to_xml plist) [
    | some xml ↦ output_buffer_add_message client tag message_plist xml
    | none ↦ pure (neg 1)
  ]

  abbrev str_node : String → ℕ
  str_node s = env.plist.new_string (codes s)

  unfoldable pub result_plist : ℕ → ℕ
  result_plist result =
      env.plist.dict_set_item
        (env.plist.dict_set_item env.plist.new_dict "MessageType" (str_node "Result")) "Number"
        (env.plist.new_uint result)

  -- A client that has spoken plist gets a plist, any other a binary message.
  unfoldable pub send_result : ℕ → ℕ → ℕ → M ℤ
  send_result client tag result = do
    c ← load_client client
    if c.proto_version == 1
        then send_plist client tag (result_plist result)
        else output_buffer_add_message client tag message_result (le32 result)

  unfoldable pub create_device_attached_plist : DeviceInfo → ℕ
  create_device_attached_plist dev =
      set (set (set new_dict "MessageType" (str_node "Attached")) "DeviceID" (new_uint dev.id))
        "Properties" props
    where
      open env.plist use {new_dict, dict_set_item as set, new_uint, new_string}

      props : ℕ
      props =
          set
            (set
              (set
                (set
                  (set (set new_dict "ConnectionSpeed" (new_uint dev.speed)) "ConnectionType"
                    (str_node "USB"))
                  "DeviceID" (new_uint dev.id))
                "LocationID" (new_uint dev.location))
              "ProductID" (new_uint dev.pid))
            "SerialNumber" (new_string dev.serial)

  -- `struct usbmuxd_device_record`: the serial number cut to 255 bytes and padded with zeros.
  unfoldable pub device_record : DeviceInfo → List ℕ
  device_record dev =
      le32 dev.id
      ++ le16 dev.pid
      ++ take 256 (take 255 dev.serial ++ replicate 256 0)
      ++ le16 0
      ++ le32 dev.location

  unfoldable pub send_device_add : ℕ → DeviceInfo → M ℤ
  send_device_add client dev = do
    c ← load_client client
    if c.proto_version == 1
        then send_plist client 0 (create_device_attached_plist dev)
        else output_buffer_add_message client 0 message_device_add (device_record dev)

  unfoldable pub device_event_plist : String → ℕ → ℕ
  device_event_plist message device_id =
      env.plist.dict_set_item
        (env.plist.dict_set_item env.plist.new_dict "MessageType" (str_node message)) "DeviceID"
        (env.plist.new_uint device_id)

  unfoldable pub send_device_remove : ℕ → ℕ → M ℤ
  send_device_remove client device_id = do
    c ← load_client client
    if c.proto_version == 1
        then send_plist client 0 (device_event_plist "Detached" device_id)
        else output_buffer_add_message client 0 message_device_remove (le32 device_id)

  unfoldable pub send_device_paired : ℕ → ℕ → M ℤ
  send_device_paired client device_id = do
    c ← load_client client
    if c.proto_version == 1
        then send_plist client 0 (device_event_plist "Paired" device_id)
        else output_buffer_add_message client 0 message_device_paired (le32 device_id)
